-- ===== src/Sha256d/Midstate/Header.antt =====
-- The midstate hash of a header is its double SHA-256.
use mathlib.Core.List.{append_assoc}
use btcrig.Fips
use btcrig.Base.{
  ℕ, zero, suc, ◌+◌, ◌-◌, ◌*◌, ◌/◌, ◌%◌, ◌^◌, ◌≡◌, refl, sym, ap, ap₂, ◌∙◌, subst, arith, List, [],
  ◌∷◌, ◌++◌, length, length-append, take_append, drop_append, take, replicate, All, All-append,
}
use btcrig.Word.{put_be64}
use btcrig.Word.Swap.{IsByte, IsWord}
use btcrig.Sha256d.OpenSsl.{OpenSsl, IsFips}
use btcrig.Sha256d.Constants.{initial_state}
use btcrig.Sha256d.Compress.{compress_block, load_block}
use btcrig.Sha256d.Compress.Refines.{
  length-load_block, load_block-to_words, compress_block-compress,
}
use btcrig.Sha256d.Midstate.{words_to_hash, hash_fast_c, sha256d_80, midstate_prepare, hash_openssl}
use btcrig.Sha256d.Midstate.Blocks.{
  tail_block, digest_block, mid_hash, length-compress_words, compress-IsWord, length-words_to_hash,
  words_to_hash-IsByte, words_to_hash-to_bytes, tail_padding, digest_padding, digest_padding_block,
  length-compress,
}
use btcrig.Sha256d.Midstate.Backends.{hash_fast_c-mid_hash, hash_openssl-mid_hash}

take_all : (n : ℕ) (xs : List ℕ) → length xs ≡ n → take n xs ≡ xs
take_all zero [] e = refl
take_all zero (x ∷ xs) e = absurd (omega arith)
take_all (suc n) [] e = refl
take_all (suc n) (x ∷ xs) e = ap (◌∷◌ x) (take_all n xs (omega arith))

to_words-append :
    (n : ℕ) (p q : List ℕ)
    → length p ≡ 4 * n
    → Fips.to_words (p ++ q) ≡ Fips.to_words p ++ Fips.to_words q
unfolding Fips.to_words
to_words-append zero [] q e = refl
to_words-append (suc n) (a ∷ b ∷ c ∷ d ∷ p) q e =
    ap (◌∷◌ (a * 2 ^ 24 + b * 2 ^ 16 + c * 2 ^ 8 + d)) (to_words-append n p q (omega arith))
to_words-append zero _ q e = absurd (omega arith)
to_words-append (suc n) _ q e = absurd (omega arith)

to_words-IsWord :
    (n : ℕ) (p : List ℕ) → length p ≡ 4 * n → All IsByte p → All IsWord (Fips.to_words p)
unfolding Fips.to_words
to_words-IsWord zero [] e h = tt
to_words-IsWord (suc n) (a ∷ b ∷ c ∷ d ∷ p) e h =
    (omega arith, to_words-IsWord n p (omega arith) h.1.1.1.1)
to_words-IsWord zero _ e h = absurd (omega arith)
to_words-IsWord (suc n) _ e h = absurd (omega arith)

-- A message of `n` bytes is padded by the count `n`.
pad_lem :
    (n : ℕ) (m : List ℕ)
    → length m ≡ n
    → Fips.pad m
      ≡ m
        ++ (0x80 ∷ replicate ((119 - n % 64) % 64) 0
            ++ Fips.to_bytes (n * 8 / 2 ^ 32 ∷ n * 8 % 2 ^ 32 ∷ []))
unfolding Fips.pad
pad_lem n m e = rw e refl

fold_one :
    (s p : List ℕ) → length p ≡ 64 → Fips.fold_blocks 1 s p ≡ Fips.compress s (Fips.to_words p)
unfolding Fips.fold_blocks
fold_one s p e = ap (λ t. Fips.compress s (Fips.to_words t)) (take_all 64 p e)

fold_two :
    (s p q : List ℕ)
    → length p ≡ 64
    → length q ≡ 64
    → Fips.fold_blocks 2 s (p ++ q)
      ≡ Fips.compress (Fips.compress s (Fips.to_words p)) (Fips.to_words q)
unfolding Fips.fold_blocks
fold_two s p q hp hq =
    ap₂ (λ x y. Fips.compress (Fips.compress s (Fips.to_words x)) (Fips.to_words y))
      (take_append p q 64 (sym hp)) (ap (take 64) (drop_append p q 64 (sym hp)) ∙ take_all 64 q hq)

-- A padded message of `k` blocks.
final_state_folds :
    (m p : List ℕ) (k : ℕ)
    → Fips.pad m ≡ p
    → length p ≡ 64 * k
    → Fips.final_state m ≡ Fips.fold_blocks k initial_state p
unfolding Fips.final_state
final_state_folds m p k e l = let blocks : length p / 64 ≡ k = omega arith in rw (e, blocks) refl

final_state_80 :
    (first tail : List ℕ)
    → length first ≡ 64
    → length tail ≡ 16
    → All IsByte tail
    → Fips.final_state (first ++ tail)
      ≡ Fips.compress
          (Fips.compress initial_state (Fips.to_words first))
          (tail_block (load_block 4 tail))
unfolding Fips.to_bytes Fips.to_words put_be64
final_state_80 first tail hf ht bytes =
    let q = tail ++ tail_padding in
    let len : length q ≡ 64 = omega (arith, length-append tail tail_padding) in
    let padded : Fips.pad (first ++ tail) ≡ first ++ q =
      pad_lem 80 (first ++ tail) (omega (arith, length-append first tail))
      ∙ append_assoc first tail tail_padding in
    final_state_folds (first ++ tail) (first ++ q) 2 padded (omega (arith, length-append first q))
    ∙ fold_two initial_state first q hf len
    ∙ ap (Fips.compress (Fips.compress initial_state (Fips.to_words first))) (
        to_words-append 4 tail tail_padding ht
        ∙ sym (append_assoc (Fips.to_words tail) _ _)
        ∙ ap tail_block (sym (load_block-to_words 4 tail ht bytes)))

final_state_32 :
    (s : List ℕ)
    → length s ≡ 8
    → All IsWord s
    → Fips.final_state (Fips.to_bytes s) ≡ Fips.compress initial_state (digest_block s)
unfolding put_be64
final_state_32 s e words =
    let (len, bytes, read) = digest_padding_block s e words in
    let same = words_to_hash-to_bytes s in
    let padded : Fips.pad (Fips.to_bytes s) ≡ words_to_hash s ++ digest_padding =
      ap Fips.pad (sym same)
      ∙ (unfold Fips.to_bytes in
          pad_lem 32 (words_to_hash s) (omega (arith, length-words_to_hash s))) in
    final_state_folds (Fips.to_bytes s) (words_to_hash s ++ digest_padding) 1 padded len
    ∙ fold_one initial_state (words_to_hash s ++ digest_padding) len
    ∙ ap (Fips.compress initial_state) read

length-compress_block : (junk s block : List ℕ) → length (compress_block junk s block) ≡ 8
unfolding compress_block
length-compress_block junk s block = length-compress_words s _

length-mid_hash_inner :
    (s tail : List ℕ)
    → length tail ≡ 4
    → length s ≡ 8
    → length (Fips.compress s (tail_block tail)) ≡ 8
length-mid_hash_inner s tail ht hs =
    length-compress s (tail_block tail)
      (omega (
        arith,
        length-append tail (0x8000_0000 ∷ replicate 10 0),
        length-append (tail ++ (0x8000_0000 ∷ replicate 10 0)) (640 ∷ []),
      ))
      hs

length-digest_block : (s : List ℕ) → length s ≡ 8 → length (digest_block s) ≡ 16
length-digest_block s e = omega (
  arith,
  length-append s (0x8000_0000 ∷ replicate 6 0),
  length-append (s ++ (0x8000_0000 ∷ replicate 6 0)) (256 ∷ []),
)

-- What a job asks of a hash function: on the words of any last 16 bytes of a header it returns
-- eight machine words, whose bytes are the double SHA-256 of the whole header.
pub record IsHeaderHash (lib : OpenSsl) (first : List ℕ) (hash : List ℕ → List ℕ) : Type 0 where
  pub words :
      (tail : List ℕ)
      → length tail ≡ 16
      → All IsByte tail
      → (length (hash (load_block 4 tail)) ≡ 8) × All IsWord (hash (load_block 4 tail))
  pub digest :
      (tail : List ℕ)
      → length tail ≡ 16
      → All IsByte tail
      → words_to_hash (hash (load_block 4 tail)) ≡ sha256d_80 lib (first ++ tail)

module _ (lib : OpenSsl) (fips : IsFips lib) (first : List ℕ) (hf : length first ≡ 64)
    (bytes_first : All IsByte first) where
  abbrev mid_state : List ℕ
  mid_state = Fips.compress initial_state (Fips.to_words first)

  length-mid_state : length mid_state ≡ 8
  length-mid_state =
      length-compress initial_state (Fips.to_words first)
        (ap length (sym (load_block-to_words 16 first hf bytes_first)) ∙ length-load_block 16 first)
        refl

  tail_words-IsWord :
      (tail : List ℕ) → length tail ≡ 16 → All IsByte tail → All IsWord (load_block 4 tail)
  tail_words-IsWord tail ht bytes =
      subst (All IsWord) (sym (load_block-to_words 4 tail ht bytes))
        (to_words-IsWord 4 tail ht bytes)

  abbrev once : List ℕ → List ℕ
  once tail = Fips.compress mid_state (tail_block (load_block 4 tail))

  length-once : (tail : List ℕ) → length (once tail) ≡ 8
  length-once tail =
      length-mid_hash_inner mid_state (load_block 4 tail) (length-load_block 4 tail)
        length-mid_state

  header_digest :
      (tail : List ℕ)
      → length tail ≡ 16
      → All IsByte tail
      → words_to_hash (mid_hash mid_state (load_block 4 tail)) ≡ sha256d_80 lib (first ++ tail)
  unfolding sha256d_80 Fips.sha256
  header_digest tail ht bytes_tail =
      let s = once tail in
      let inner : Fips.sha256 (first ++ tail) ≡ Fips.to_bytes s =
        ap Fips.to_bytes (final_state_80 first tail hf ht bytes_tail) in
      let outer : lib.sha256 (lib.sha256 (first ++ tail)) ≡ Fips.sha256 (Fips.to_bytes s) =
        ap lib.sha256 (
          fips.sha256_digest (first ++ tail) (All-append IsByte first tail bytes_first bytes_tail)
          ∙ inner)
        ∙ fips.sha256_digest (Fips.to_bytes s)
            (subst (All IsByte) (words_to_hash-to_bytes s) (words_to_hash-IsByte s)) in
      words_to_hash-to_bytes _
      ∙ ap Fips.to_bytes (sym (final_state_32 s (length-once tail) (compress-IsWord mid_state _)))
      ∙ sym outer

  -- A function that computes `mid_hash` from the compressed first 64 bytes serves a job.
  of_mid_hash :
      (hash : List ℕ → List ℕ)
      → ((tail : List ℕ) → length tail ≡ 4 → All IsWord tail → hash tail ≡ mid_hash mid_state tail)
      → IsHeaderHash lib first hash
  of_mid_hash hash same = record {
    words = λ tail ht bytes.
        let e =
          same (load_block 4 tail) (length-load_block 4 tail) (tail_words-IsWord tail ht bytes) in
        (
          ap length e
              ∙ length-compress initial_state (digest_block (once tail))
                  (length-digest_block (once tail) (length-once tail)) refl,
          subst (All IsWord) (sym e) (compress-IsWord initial_state _),
        );
    digest = λ tail ht bytes.
        ap words_to_hash
          (same (load_block 4 tail) (length-load_block 4 tail) (tail_words-IsWord tail ht bytes))
        ∙ header_digest tail ht bytes;
  }

  -- If libcrypto implements FIPS 180-4, then at the midstate prepared from the first 64 bytes of a
  -- header the openssl back end serves the job of that header.
  pub hash_openssl-IsHeaderHash :
      (junk : List ℕ) → IsHeaderHash lib first (hash_openssl lib (midstate_prepare lib junk first))
  unfolding midstate_prepare
  hash_openssl-IsHeaderHash junk =
      let updated : lib.words (lib.update lib.init first) ≡ mid_state =
        fips.words_update first hf bytes_first
        ∙ ap (λ t. Fips.compress t (Fips.to_words first)) fips.words_init in
      of_mid_hash _ λ tail ht words.
        hash_openssl-mid_hash lib fips (midstate_prepare lib junk first) tail ht words
          fips.words_init (ap length updated ∙ length-mid_state)
        ∙ ap (λ t. mid_hash t tail) updated

  -- The same of the fast-c back end, whatever the 48 words of its local arrays hold that it does
  -- not load.
  pub hash_fast_c-IsHeaderHash :
      (junk junk' : List ℕ)
      → length junk ≡ 48
      → length junk' ≡ 48
      → IsHeaderHash lib first (hash_fast_c junk' (midstate_prepare lib junk first).fast_state)
  unfolding midstate_prepare
  hash_fast_c-IsHeaderHash junk junk' hj hj' = of_mid_hash _ λ tail ht words.
      hash_fast_c-mid_hash junk' (compress_block junk initial_state first) tail hj'
        (length-compress_block junk initial_state first) ht
      ∙ ap (λ t. mid_hash t tail)
          (compress_block-compress junk initial_state first hj refl hf bytes_first)
