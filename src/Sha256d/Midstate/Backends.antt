-- ===== src/Sha256d/Midstate/Backends.antt =====
-- Both back ends of sha256d.c in C compute one function of the midstate and the tail's words.
use btcrig.Fips
use btcrig.Base.{
  ℕ, ◌≡◌, refl, ap, ap₂, ◌∙◌, List, [], ◌∷◌, ◌++◌, arith, length, take, drop, replicate, All,
  length-append, length-drop,
}
use btcrig.Word.{put_be64}
use btcrig.Word.Swap.{IsWord}
use btcrig.Sha256d.OpenSsl.{OpenSsl, IsFips}
use btcrig.Sha256d.Constants.{initial_state}
use btcrig.Sha256d.Compress.{compress_words}
use btcrig.Sha256d.Compress.Refines.{compress_words-compress}
use btcrig.Sha256d.Midstate.{Midstate, words_to_hash, hash_fast_c, hash_openssl}
use btcrig.Sha256d.Midstate.Blocks.{
  tail_block, digest_block, mid_hash, length-compress_words, compress-IsWord, tail_padding,
  digest_padding, tail_padding_block, digest_padding_block, length-compress,
}

take-tail_block :
    (tail junk : List ℕ)
    → length tail ≡ 4
    → take 16 (tail ++ (0x8000_0000 ∷ replicate 10 0) ++ (640 ∷ junk)) ≡ tail_block tail
take-tail_block (a ∷ b ∷ c ∷ d ∷ []) junk e = refl
take-tail_block _ junk e = absurd (omega arith)

take-digest_block :
    (state junk : List ℕ)
    → length state ≡ 8
    → take 16 (state ++ (0x8000_0000 ∷ replicate 6 0) ++ (256 ∷ junk)) ≡ digest_block state
take-digest_block (a ∷ b ∷ c ∷ d ∷ e ∷ f ∷ g ∷ h ∷ []) junk l = refl
take-digest_block _ junk l = absurd (omega arith)

pub hash_fast_c-mid_hash :
    (junk state tail : List ℕ)
    → length junk ≡ 48
    → length state ≡ 8
    → length tail ≡ 4
    → hash_fast_c junk state tail ≡ mid_hash state tail
unfolding hash_fast_c
hash_fast_c-mid_hash junk state tail hj hs ht =
    let w = tail ++ (0x8000_0000 ∷ replicate 10 0) ++ (640 ∷ junk) in
    let len : length w ≡ 64 = omega (
      arith,
      length-append tail (0x8000_0000 ∷ replicate 10 0),
      length-append (tail ++ (0x8000_0000 ∷ replicate 10 0)) (640 ∷ junk),
    ) in
    let once = compress_words-compress state w hs len in
    let mid : (compress_words state w).0 ≡ Fips.compress state (tail_block tail) =
      once.0 ∙ ap (Fips.compress state) (take-tail_block tail junk ht) in
    let left = drop 16 (compress_words state w).1 in
    let v = (compress_words state w).0 ++ (0x8000_0000 ∷ replicate 6 0) ++ (256 ∷ left) in
    let len' : length v ≡ 64 = omega (
      arith,
      length-compress_words state w,
      length-append (compress_words state w).0 (0x8000_0000 ∷ replicate 6 0),
      length-append ((compress_words state w).0 ++ (0x8000_0000 ∷ replicate 6 0)) (256 ∷ left),
      length-drop 16 (compress_words state w).1,
      once.1,
    ) in
    (compress_words-compress initial_state v refl len').0
    ∙ ap (Fips.compress initial_state) (
        take-digest_block (compress_words state w).0 left (length-compress_words state w)
        ∙ ap digest_block mid)

module _ (lib : OpenSsl) (fips : IsFips lib) where
  pub hash_openssl-mid_hash :
      (state : Midstate lib) (tail : List ℕ)
      → length tail ≡ 4
      → All IsWord tail
      → lib.words state.second_ctx ≡ initial_state
      → length (lib.words state.ctx) ≡ 8
      → hash_openssl lib state tail ≡ mid_hash (lib.words state.ctx) tail
  unfolding hash_openssl put_be64
  hash_openssl-mid_hash state tail ht words hi hs =
      let (len, bytes, read) = tail_padding_block tail ht words in
      let once =
        fips.words_transform state.ctx (words_to_hash tail ++ tail_padding) len bytes
        ∙ ap (Fips.compress (lib.words state.ctx)) read in
      let s = Fips.compress (lib.words state.ctx) (tail_block tail) in
      let (len', bytes', read') =
        digest_padding_block s
          (length-compress (lib.words state.ctx) (tail_block tail)
            (omega (
              arith,
              length-append tail (0x8000_0000 ∷ replicate 10 0),
              length-append (tail ++ (0x8000_0000 ∷ replicate 10 0)) (640 ∷ []),
            ))
            hs)
          (compress-IsWord (lib.words state.ctx) (tail_block tail)) in
      ap (λ t. lib.words (lib.transform state.second_ctx (words_to_hash t ++ digest_padding))) once
      ∙ fips.words_transform state.second_ctx (words_to_hash s ++ digest_padding) len' bytes'
      ∙ ap₂ Fips.compress hi read'
