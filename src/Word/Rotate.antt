-- ===== src/Word/Rotate.antt =====
-- `rotr32` is the rotation of the 32 binary digits, at every distance.
use native.Mathlib.Nat.{pow-suc, div-add-mod', mod-lt, one-le-pow, div-lt_iff_lt-mul}
use btcrig.Base.{
  ℕ, zero, suc, ◌+◌, ◌-◌, ◌*◌, ◌/◌, ◌%◌, ◌^◌, ◌≤◌, ◌<◌, bit_or, ◌≡◌, sym, ap, ◌∙◌, arith,
}
use btcrig.Word.{shl32, rotr32}
use btcrig.Word.Swap.{IsWord}
use btcrig.Word.Fields.{bit_or_low_first}

pow_split : (n m : ℕ) → 2 ^ (n + m) ≡ 2 ^ n * 2 ^ m
pow_split zero m = ground arith
pow_split (suc n) m =
    let unrolled : 2 ^ (suc n + m) ≡ 2 ^ suc (n + m) = ap (λ (t : ℕ). 2 ^ t) (omega arith) in
    omega
      (arith, unrolled, pow-suc 2 (n + m), pow_split n m, ap (λ (t : ℕ). t * 2 ^ m) (pow-suc 2 n))

module _ (n m : ℕ) (whole : n + m ≡ 32) where
  width : 2 ^ n * 2 ^ m ≡ 2 ^ 32
  width = sym (pow_split n m) ∙ ap (λ (t : ℕ). 2 ^ t) whole

  pos : 0 < 2 ^ n
  pos = one-le-pow n 2 (omega arith)

  scaled_lt : (r : ℕ) → r < 2 ^ n → r * 2 ^ m < 2 ^ 32
  scaled_lt r h = grind (arith, width, one-le-pow m 2)

  shl32_low : (x : ℕ) → shl32 x m ≡ x % 2 ^ n * 2 ^ m
  shl32_low x = omega (
    arith,
    scaled_lt (x % 2 ^ n) (mod-lt x pos),
    ap (λ (t : ℕ). t * 2 ^ m) (div-add-mod' x (2 ^ n)),
    ap (λ (t : ℕ). x / 2 ^ n * t) width,
  )

  high_lt : (x : ℕ) → IsWord x → x / 2 ^ n < 2 ^ m
  high_lt x h = (div-lt_iff_lt-mul pos).1 (omega (arith, width))

-- The low `n` digits move to the top, and the others come down by `n`.
pub rotr32_lem : (n x : ℕ) → n ≤ 32 → IsWord x → rotr32 x n ≡ x % 2 ^ n * 2 ^ (32 - n) + x / 2 ^ n
unfolding rotr32
rotr32_lem n x le h =
    let whole : n + (32 - n) ≡ 32 = omega arith in
    ap (bit_or (x / 2 ^ n)) (shl32_low n (32 - n) whole x)
    ∙ bit_or_low_first (32 - n) (x % 2 ^ n) (x / 2 ^ n) (high_lt n (32 - n) whole x h)
