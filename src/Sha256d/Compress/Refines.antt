-- ===== src/Sha256d/Compress/Refines.antt =====
-- The compression of sha256d.c is that of FIPS 180-4.
use btcrig.Fips
use btcrig.Base.{
  ℕ, zero, suc, ◌*◌, ◌≡◌, refl, sym, ap, ap₂, ◌∙◌, List, [], ◌∷◌, ◌++◌, arith, length, take, drop,
  All, length-append, take_append,
}
use btcrig.Word.Swap.{IsByte, load_be32_sum}
use btcrig.Sha256d.Constants.{round_constants}
use btcrig.Sha256d.Compress.{compress_words, compress_block, expand, rounds, load_regs, load_block}
use btcrig.Sha256d.Compress.Schedule.{expand-message_schedule, length-expand}
use btcrig.Sha256d.Compress.Rounds.{listed-rounds, add_regs-add_words, listed-load_regs}

-- With a state of 8 words and an array of 64, the new state is the specification's for the first
-- 16 words of the array: what the other 48 held before does not matter. The array keeps its length.
pub compress_words-compress :
    (state w : List ℕ)
    → length state ≡ 8
    → length w ≡ 64
    → ((compress_words state w).0 ≡ Fips.compress state (take 16 w))
      × (length (compress_words state w).1 ≡ 64)
unfolding compress_words Fips.compress
compress_words-compress state w hs hw =
    let w' = expand 48 16 w in
    let len : length w' ≡ 64 = length-expand 48 16 w ∙ hw in
    (
      add_regs-add_words state (rounds 64 0 w' (load_regs state)) hs
          ∙ ap (Fips.add_words state) (
              listed-rounds w' (load_regs state) len
              ∙ ap₂ (Fips.rounds round_constants) (expand-message_schedule w hw)
                  (listed-load_regs state hs)),
      len,
    )

-- Loading `n` words from `4 * n` bytes.
pub load_block-to_words :
    (n : ℕ) (p : List ℕ) → length p ≡ 4 * n → All IsByte p → load_block n p ≡ Fips.to_words p
unfolding load_block Fips.to_words
load_block-to_words zero [] e h = refl
load_block-to_words (suc n) (a ∷ b ∷ c ∷ d ∷ r) e h =
    ap₂ ◌∷◌ (load_be32_sum a b c d r h.0 h.1.0 h.1.1.0 h.1.1.1.0)
      (load_block-to_words n r (omega arith) h.1.1.1.1)
load_block-to_words zero _ e h = absurd (omega arith)
load_block-to_words (suc n) _ e h = absurd (omega arith)

pub length-load_block : (n : ℕ) (p : List ℕ) → length (load_block n p) ≡ n
unfolding load_block
length-load_block zero p = refl
length-load_block (suc n) p = ap suc (length-load_block n (drop 4 p))

-- A block of 64 bytes is compressed as the specification says, whatever the 48 words of the local
-- array that are not loaded from it held.
pub compress_block-compress :
    (junk state block : List ℕ)
    → length junk ≡ 48
    → length state ≡ 8
    → length block ≡ 64
    → All IsByte block
    → compress_block junk state block ≡ Fips.compress state (Fips.to_words block)
unfolding compress_block
compress_block-compress junk state block hj hs hb bytes =
    let words = load_block 16 block in
    let len : length words ≡ 16 = length-load_block 16 block in
    (compress_words-compress state (words ++ junk) hs (omega (arith, length-append words junk))).0
    ∙ ap (Fips.compress state)
        (take_append words junk 16 (sym len) ∙ load_block-to_words 16 block (omega arith) bytes)
