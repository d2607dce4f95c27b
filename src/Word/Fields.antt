-- ===== src/Word/Fields.antt =====
-- `|` of disjoint fields is a sum, and `&` with a mask is a field, at every width.
use native.Mathlib.Nat.{pow-suc, one-le-pow, mod-lt, div-add-mod', div-div-eq-div-mul}
use btcrig.Word.Digits.{bit_or_step, bit_and_step, bit_or-zero, zero-bit_or, bit_and-zero}
use btcrig.Base.{
  ℕ, zero, suc, ◌+◌, ◌-◌, ◌*◌, ◌/◌, ◌%◌, ◌^◌, ◌≤◌, ◌<◌, bit_and, bit_or, ◌≡◌, ap, ◌∙◌, arith,
}

-- `(q << k) | r` where `r` fits `k` bits.
pub bit_or_fields : (k q r : ℕ) → r < 2 ^ k → bit_or (q * 2 ^ k) r ≡ q * 2 ^ k + r
bit_or_fields zero q r h = ground (arith, bit_or-zero q)
bit_or_fields (suc k) q r h =
    let half : r / 2 < 2 ^ k = omega (arith, pow-suc 2 k) in
    let double : q * 2 ^ suc k ≡ 2 * (q * 2 ^ k) =
      omega (arith, ap (λ (t : ℕ). q * t) (pow-suc 2 k)) in
    ground (arith, bit_or_step (q * 2 ^ suc k) r, double, bit_or_fields k q (r / 2) half)

-- A mask shifted up selects from the shifted value.
pub bit_and_shifted : (k a m : ℕ) → bit_and a (m * 2 ^ k) ≡ bit_and (a / 2 ^ k) m * 2 ^ k
bit_and_shifted zero a m = ground arith
bit_and_shifted (suc k) a m =
    let double : m * 2 ^ suc k ≡ 2 * (m * 2 ^ k) =
      omega (arith, ap (λ (t : ℕ). m * t) (pow-suc 2 k)) in
    let halves : a / 2 / 2 ^ k ≡ a / 2 ^ suc k =
      div-div-eq-div-mul a 2 (2 ^ k) ∙ ap (λ (t : ℕ). a / t) (omega (arith, pow-suc 2 k)) in
    ground (
      arith,
      bit_and_step a (m * 2 ^ suc k),
      double,
      bit_and_shifted k (a / 2) m,
      halves,
      ap (λ (t : ℕ). bit_and (a / 2 ^ suc k) m * t) (pow-suc 2 k),
    )

ones_of_fields : (k q r : ℕ) → r < 2 ^ k → bit_and (q * 2 ^ k + r) (2 ^ k - 1) ≡ r
ones_of_fields zero q r h = omega (arith, bit_and-zero (q * 1 + r))
ones_of_fields (suc k) q r h =
    let half : r / 2 < 2 ^ k = omega (arith, pow-suc 2 k) in
    let double : q * 2 ^ suc k ≡ 2 * (q * 2 ^ k) =
      omega (arith, ap (λ (t : ℕ). q * t) (pow-suc 2 k)) in
    ground (
      arith,
      bit_and_step (q * 2 ^ suc k + r) (2 ^ suc k - 1),
      double,
      pow-suc 2 k,
      one-le-pow k 2,
      ones_of_fields k q (r / 2) half,
    )

-- A mask of `k` ones is the remainder by `2 ^ k`.
pub bit_and_ones : (k a : ℕ) → bit_and a (2 ^ k - 1) ≡ a % 2 ^ k
bit_and_ones k a = ground (
  arith,
  ones_of_fields k (a / 2 ^ k) (a % 2 ^ k) (mod-lt a (one-le-pow k 2 (omega arith))),
  div-add-mod' a (2 ^ k),
)

or_comm_upto : (n a b : ℕ) → a ≤ n → bit_or a b ≡ bit_or b a
or_comm_upto n zero b h = omega (arith, zero-bit_or b, bit_or-zero b)
or_comm_upto zero (suc a) b h = absurd (omega arith)
or_comm_upto (suc n) (suc a) b h = omega (
  arith,
  bit_or_step (suc a) b,
  bit_or_step b (suc a),
  or_comm_upto n (suc a / 2) (b / 2) (omega arith),
)

-- The low field may stand first.
pub bit_or_low_first : (k q r : ℕ) → r < 2 ^ k → bit_or r (q * 2 ^ k) ≡ q * 2 ^ k + r
bit_or_low_first k q r h = or_comm_upto r r (q * 2 ^ k) (omega arith) ∙ bit_or_fields k q r h
