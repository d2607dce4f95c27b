-- ===== src/Job/Target.antt =====
-- The target of any difficulty, whatever the arithmetic of `double` is.
use native.Mathlib.Nat.{pow-suc}
use btcrig.Base.{
  ℕ, zero, suc, ◌+◌, ◌-◌, ◌*◌, ◌%◌, ◌^◌, ◌≤◌, ◌<◌, ◌≡◌, refl, sym, ap, ◌∙◌, subst, inl, inr, ◌&&◌,
  List, ◌∷◌, ◌++◌, arith, ◌==◌, if◌then◌else◌, Bool-cases, length, get_or, replicate,
}
use btcrig.Word.{u8, shr}
use btcrig.Target.Order.{value}
use btcrig.Job.{Doubles, shrink, grow, compact, turned, place, target_from_difficulty}

module _ (F : Doubles) where
  shrink_exp :
      (room : ℕ) (mant : F.Double) (exp : ℕ)
      → (exp ≤ (shrink F room mant exp).1) × ((shrink F room mant exp).1 ≤ exp + room)
  unfolding shrink
  shrink_exp zero mant exp = (omega arith, omega arith)
  shrink_exp (suc room) mant exp =
      let ih = shrink_exp room (F.over mant (F.of_nat 256)) (exp + 1) in
      elim (Bool-cases (F.at_most (F.of_nat 0x800000) mant)) [
        | inl e ↦ rw e (omega arith, omega arith)
        | inr e ↦ rw e (omega arith, omega arith)
      ]

  grow_exp :
      (room : ℕ) (mant : F.Double) (exp : ℕ)
      → ((grow F room mant exp).1 ≤ exp) × (exp ≤ (grow F room mant exp).1 + room)
  unfolding grow
  grow_exp zero mant exp = (omega arith, omega arith)
  grow_exp (suc room) mant exp =
      let ih = grow_exp room (F.times mant (F.of_nat 256)) (exp - 1) in
      elim (Bool-cases (F.below (F.of_nat 0) mant && F.below mant (F.of_nat 0x8000))) [
        | inl e ↦ rw e (omega arith, omega arith)
        | inr e ↦ rw e (omega arith, omega arith)
      ]

  -- Both loops keep the exponent between 3 and 32.
  pub compact_exp :
      (difficulty : F.Double) → (3 ≤ (compact F difficulty).1) × ((compact F difficulty).1 ≤ 32)
  unfolding compact
  compact_exp difficulty =
      let positive = if F.at_most difficulty (F.of_nat 0) then F.of_nat 1 else difficulty in
      let first = shrink F 3 (F.over (F.of_nat 65535) positive) 29 in
      let up = shrink_exp 3 (F.over (F.of_nat 65535) positive) 29 in
      let down = grow_exp (first.1 - 3) first.0 first.1 in (omega arith, omega arith)

length-turned : (n : ℕ) (be : List ℕ) → length (turned n be) ≡ n
unfolding turned
length-turned zero be = refl
length-turned (suc n) be = ap suc (length-turned n be)

-- The mantissa's three bytes in the last byte first order stand with `exp - 3` bytes below them.
placed : ℕ → ℕ → List ℕ
placed m exp =
    replicate (exp - 3) 0 ++ (u8 m ∷ u8 (shr m 8) ∷ u8 (shr m 16) ∷ replicate (32 - exp) 0)

-- `P` at each number below `n`, as a table.
abbrev Table {ℓ} : (ℕ → Type ℓ) → ℕ → Type ℓ
Table P zero = Unit
Table P (suc n) = Table P n × P n

look_up {ℓ} : (P : ℕ → Type ℓ) (n k : ℕ) → k < n → Table P n → P k
look_up P zero k h t = absurd (omega arith)
look_up P (suc n) k h t = elim (Bool-cases (k == n)) [
  | inl e ↦ subst P (sym (ground arith)) t.1
  | inr e ↦ look_up P n k (ground arith) t.0
]

-- The exponents that occur.
place-Table : (m : ℕ) → Table (λ k. place m (k + 3) ≡ placed m (k + 3)) 30
unfolding place placed
place-Table m = (
  (
    (
      (
        (
          (
            (
              (
                (
                  (
                    (
                      (
                        (
                          (
                            (
                              (
                                (
                                  (
                                    (
                                      (
                                        (
                                          (
                                            (
                                              (
                                                ((((((tt, refl), refl), refl), refl), refl), refl),
                                                refl,
                                              ),
                                              refl,
                                            ),
                                            refl,
                                          ),
                                          refl,
                                        ),
                                        refl,
                                      ),
                                      refl,
                                    ),
                                    refl,
                                  ),
                                  refl,
                                ),
                                refl,
                              ),
                              refl,
                            ),
                            refl,
                          ),
                          refl,
                        ),
                        refl,
                      ),
                      refl,
                    ),
                    refl,
                  ),
                  refl,
                ),
                refl,
              ),
              refl,
            ),
            refl,
          ),
          refl,
        ),
        refl,
      ),
      refl,
    ),
    refl,
  ),
  refl,
)

place-placed : (m exp : ℕ) → 3 ≤ exp → exp ≤ 32 → place m exp ≡ placed m exp
place-placed m exp lo hi =
    let back : exp - 3 + 3 ≡ exp = omega arith in
    subst (λ e. place m e ≡ placed m e) back
      (look_up (λ k. place m (k + 3) ≡ placed m (k + 3)) 30 (exp - 3) (omega arith) (place-Table m))

value-cons : (n x : ℕ) (xs : List ℕ) → value 256 (suc n) (x ∷ xs) ≡ x + value 256 n xs * 256
unfolding value
value-cons zero x xs = omega arith
value-cons (suc n) x xs =
    let more : get_or xs n 0 * 256 ^ suc n ≡ get_or xs n 0 * (256 ^ n * 256) =
      ap (λ t. get_or xs n 0 * t) (pow-suc 256 n) in
    let ih : value 256 (suc n) (x ∷ xs) ≡ x + value 256 n xs * 256 = value-cons n x xs in
    ap (λ t. t + get_or xs n 0 * 256 ^ suc n) ih ∙ omega arith

value-zeros :
    (n k : ℕ) (xs : List ℕ) → value 256 (n + k) (replicate n 0 ++ xs) ≡ value 256 k xs * 256 ^ n
value-zeros zero k xs =
    let same : 0 + k ≡ k = omega arith in ap (λ j. value 256 j xs) same ∙ omega arith
value-zeros (suc n) k xs =
    let more : value 256 k xs * 256 ^ suc n ≡ value 256 k xs * (256 ^ n * 256) =
      ap (λ t. value 256 k xs * t) (pow-suc 256 n) in
    let longer : suc n + k ≡ suc (n + k) = omega arith in
    ap (λ j. value 256 j (0 ∷ replicate n 0 ++ xs)) longer
    ∙ value-cons (n + k) 0 (replicate n 0 ++ xs)
    ∙ omega (arith, value-zeros n k xs)

value_none : (n : ℕ) → value 256 n (replicate n 0) ≡ 0
unfolding value
value_none zero = refl
value_none (suc n) = value-cons n 0 (replicate n 0) ∙ omega (arith, value_none n)

-- For every arithmetic of `double` the target, as a little-endian number, is the low 24 bits of the
-- mantissa that the loops leave, times 256 to the power of their exponent less 3.
pub value-target_from_difficulty :
    (F : Doubles) (difficulty : F.Double)
    → value 256 32 (target_from_difficulty F difficulty)
      ≡ F.to_u32 (compact F difficulty).0 % 2 ^ 24 * 256 ^ ((compact F difficulty).1 - 3)
unfolding target_from_difficulty placed
value-target_from_difficulty F difficulty =
    let bounds = compact_exp F difficulty in
    let m = F.to_u32 (compact F difficulty).0 in
    let exp = (compact F difficulty).1 in
    let width : exp - 3 + suc (suc (suc (32 - exp))) ≡ 32 = omega arith in
    let three =
      value-cons (suc (suc (32 - exp))) (u8 m)
        (u8 (shr m 8) ∷ u8 (shr m 16) ∷ replicate (32 - exp) 0) in
    let two = value-cons (suc (32 - exp)) (u8 (shr m 8)) (u8 (shr m 16) ∷ replicate (32 - exp) 0) in
    let one = value-cons (32 - exp) (u8 (shr m 16)) (replicate (32 - exp) 0) in
    ap (value 256 32) (place-placed m exp bounds.0 bounds.1)
    ∙ ap (λ n. value 256 n (placed m exp)) (sym width)
    ∙ value-zeros (exp - 3) (suc (suc (suc (32 - exp))))
        (u8 m ∷ u8 (shr m 8) ∷ u8 (shr m 16) ∷ replicate (32 - exp) 0)
    ∙ ap (λ t. t * 256 ^ (exp - 3)) (omega (arith, value_none (32 - exp), one, two, three))
