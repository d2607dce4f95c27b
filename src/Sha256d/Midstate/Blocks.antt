-- ===== src/Sha256d/Midstate/Blocks.antt =====
-- The two padded blocks that a header's tail and its digest make.
use mathlib.Core.List.{append_assoc}
use btcrig.Fips
use btcrig.Base.{
  ℕ, ◌+◌, ◌*◌, ◌/◌, ◌%◌, ◌^◌, ◌≡◌, refl, sym, ap, ap₂, ◌∙◌, List, [], ◌∷◌, ◌++◌, arith, length,
  replicate, All, length-append, take_append, All-append,
}
use btcrig.Word.{put_be32, put_be64}
use btcrig.Word.Swap.{IsByte, IsWord}
use btcrig.Sha256d.Constants.{initial_state}
use btcrig.Sha256d.Compress.{compress_words}
use btcrig.Sha256d.Compress.Refines.{compress_words-compress}
use btcrig.Sha256d.Midstate.{words_to_hash}

-- The padded blocks behind the last 16 bytes of a header and behind a digest.
abbrev pub tail_block : List ℕ → List ℕ
tail_block tail = tail ++ (0x8000_0000 ∷ replicate 10 0) ++ (640 ∷ [])

abbrev pub digest_block : List ℕ → List ℕ
digest_block state = state ++ (0x8000_0000 ∷ replicate 6 0) ++ (256 ∷ [])

abbrev pub mid_hash : List ℕ → List ℕ → List ℕ
mid_hash state tail =
    Fips.compress initial_state (digest_block (Fips.compress state (tail_block tail)))

pub length-compress_words : (state w : List ℕ) → length (compress_words state w).0 ≡ 8
unfolding compress_words
length-compress_words state w = refl

pub to_words-put_be32 :
    (ws rest : List ℕ)
    → All IsWord ws
    → Fips.to_words (words_to_hash ws ++ rest) ≡ ws ++ Fips.to_words rest
unfolding Fips.to_words put_be32 words_to_hash
to_words-put_be32 [] rest h = refl
to_words-put_be32 (w ∷ ws) rest h =
    let whole : w / 2 ^ 24 % 256 * 2 ^ 24
          + w / 2 ^ 16 % 256 * 2 ^ 16
          + w / 2 ^ 8 % 256 * 2 ^ 8
          + w % 256
        ≡ w =
      (let small : IsWord w = h.0 in omega arith) in
    ap₂ ◌∷◌ whole (to_words-put_be32 ws rest h.1)

-- The words of a specified state are machine words, and there are as many as before.
add_words-IsWord : (s t : List ℕ) → All IsWord (Fips.add_words s t)
unfolding Fips.add_words
add_words-IsWord [] t = tt
add_words-IsWord (x ∷ s) [] = tt
add_words-IsWord (x ∷ s) (y ∷ t) = (omega arith, add_words-IsWord s t)

pub compress-IsWord : (s block : List ℕ) → All IsWord (Fips.compress s block)
unfolding Fips.compress
compress-IsWord s block = add_words-IsWord s _

pub length-words_to_hash : (ws : List ℕ) → length (words_to_hash ws) ≡ 4 * length ws
unfolding words_to_hash put_be32
length-words_to_hash [] = refl
length-words_to_hash (w ∷ ws) = omega (arith, length-words_to_hash ws)

pub words_to_hash-IsByte : (ws : List ℕ) → All IsByte (words_to_hash ws)
unfolding words_to_hash put_be32
words_to_hash-IsByte [] = tt
words_to_hash-IsByte (w ∷ ws) =
    (omega arith, (omega arith, (omega arith, (omega arith, words_to_hash-IsByte ws))))

-- The stored words are the bytes of the specification.
pub words_to_hash-to_bytes : (ws : List ℕ) → words_to_hash ws ≡ Fips.to_bytes ws
unfolding words_to_hash put_be32 Fips.to_bytes
words_to_hash-to_bytes [] = refl
words_to_hash-to_bytes (w ∷ ws) =
    ap (λ t. (w / 2 ^ 24 % 256) ∷ (w / 2 ^ 16 % 256) ∷ (w / 2 ^ 8 % 256) ∷ (w % 256) ∷ t)
      (words_to_hash-to_bytes ws)

-- What stands behind the tail's words and behind the digest's words.
abbrev pub tail_padding : List ℕ
unfolding put_be64
tail_padding = 0x80 ∷ replicate 39 0 ++ put_be64 640

abbrev pub digest_padding : List ℕ
unfolding put_be64
digest_padding = 0x80 ∷ replicate 23 0 ++ put_be64 256

pub tail_padding_block :
    (ws : List ℕ)
    → length ws ≡ 4
    → All IsWord ws
    → (length (words_to_hash ws ++ tail_padding) ≡ 64)
      × All IsByte (words_to_hash ws ++ tail_padding)
      × (Fips.to_words (words_to_hash ws ++ tail_padding) ≡ tail_block ws)
unfolding put_be64 Fips.to_words
tail_padding_block ws e h = (
  omega (arith, length-append (words_to_hash ws) tail_padding, length-words_to_hash ws),
  All-append IsByte (words_to_hash ws) tail_padding (words_to_hash-IsByte ws) (omega arith),
  to_words-put_be32 ws tail_padding h ∙ sym (append_assoc ws _ _),
)

pub digest_padding_block :
    (ws : List ℕ)
    → length ws ≡ 8
    → All IsWord ws
    → (length (words_to_hash ws ++ digest_padding) ≡ 64)
      × All IsByte (words_to_hash ws ++ digest_padding)
      × (Fips.to_words (words_to_hash ws ++ digest_padding) ≡ digest_block ws)
unfolding put_be64 Fips.to_words
digest_padding_block ws e h = (
  omega (arith, length-append (words_to_hash ws) digest_padding, length-words_to_hash ws),
  All-append IsByte (words_to_hash ws) digest_padding (words_to_hash-IsByte ws) (omega arith),
  to_words-put_be32 ws digest_padding h ∙ sym (append_assoc ws _ _),
)

pub length-compress :
    (s block : List ℕ) → length block ≡ 16 → length s ≡ 8 → length (Fips.compress s block) ≡ 8
length-compress s block hb hs =
    let w = block ++ replicate 48 0 in
    let len : length w ≡ 64 = omega (arith, length-append block (replicate 48 0)) in
    ap length (
      ap (Fips.compress s) (sym (take_append block (replicate 48 0) 16 (sym hb)))
      ∙ sym (compress_words-compress s w hs len).0)
    ∙ length-compress_words s w
