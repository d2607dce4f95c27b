-- ===== src/Job/Extranonce2.antt =====
-- The printed extranonce2 is the counter in as many bytes as the pool asked for.
use native.Mathlib.Nat.{pow-suc, one-le-pow}
use native.Mathlib.Numerals.{unary_clauses}
use mathlib.Core.List.{append_assoc}
use btcrig.Base.{
  ℕ, zero, suc, ◌+◌, ◌-◌, ◌*◌, ◌/◌, ◌%◌, ◌^◌, ◌≤◌, ◌<◌, ◌≡◌, refl, sym, ap, ap₂, ◌∙◌, subst, inl,
  inr, true, false, some, List, [], ◌∷◌, ◌++◌, arith, ltb, ◌==◌, Bool-cases, length, take,
  replicate, All, length-append, length-take, All-append, take_whole,
}
use btcrig.Word.Swap.{IsByte}
use btcrig.Hex.{hex_to_bytes}
use btcrig.Hex.RoundTrip.{to_hex, to_hex-append, length-to_hex, hex_to_bytes-to_hex}
use btcrig.Job.{lower_digit, hex_digits, format_extranonce2}

-- `n` digits of a number.
padded : ℕ → ℕ → List ℕ
padded zero v = []
padded (suc n) v = padded n (v / 16) ++ (lower_digit (v % 16) ∷ [])

-- The number in `n` bytes, the highest first.
pub bytes_of : ℕ → ℕ → List ℕ
bytes_of zero v = []
bytes_of (suc n) v = bytes_of n (v / 256) ++ (v % 256 ∷ [])

replicate_snoc : (n a : ℕ) → replicate n a ++ (a ∷ []) ≡ a ∷ replicate n a
replicate_snoc zero a = refl
replicate_snoc (suc n) a = ap (◌∷◌ a) (replicate_snoc n a)

padded-zero : (n : ℕ) → padded n 0 ≡ replicate n 48
unfolding padded
padded-zero zero = refl
padded-zero (suc n) = ap (λ t. t ++ (48 ∷ [])) (padded-zero n) ∙ replicate_snoc n 48

hex_digits-padded :
    (n fuel v : ℕ)
    → v < 16 ^ suc n
    → suc n ≤ fuel
    → replicate (suc n - length (hex_digits fuel v)) 48 ++ hex_digits fuel v ≡ padded (suc n) v
unfolding hex_digits padded
hex_digits-padded n zero v h f = absurd (omega arith)
hex_digits-padded zero (suc fuel) v h f =
    let small : (v / 16 == 0) ≡ true = ground arith in
    let same : v ≡ v % 16 = omega arith in rw small (ap (λ d. lower_digit d ∷ []) same)
hex_digits-padded (suc n) (suc fuel) v h f =
    let bound : v / 16 < 16 ^ suc n = omega (arith, pow-suc 16 (suc n)) in
    let rest = hex_digits-padded n fuel (v / 16) bound (omega arith) in
    elim (Bool-cases (v / 16 == 0)) [
      | inl e ↦
          let none_left : v / 16 ≡ 0 = ground arith in
          let same : v ≡ v % 16 = omega arith in
          simp (e, unary_clauses)
            (ap₂ (λ xs d. xs ++ (lower_digit d ∷ []))
              (sym (padded-zero (suc n)) ∙ ap (padded (suc n)) (sym none_left)) same)
      | inr e ↦
          let digits = hex_digits fuel (v / 16) in
          let last = lower_digit (v % 16) ∷ [] in
          let shorter : suc (suc n) - length (digits ++ last) ≡ suc n - length digits =
            omega (arith, length-append digits last) in
          rw e (
            ap (λ k. replicate k 48 ++ (digits ++ last)) shorter
            ∙ sym (append_assoc (replicate (suc n - length digits) 48) digits last)
            ∙ ap (λ xs. xs ++ last) rest)
    ]

to_hex-bytes_of : (n v : ℕ) → to_hex (bytes_of n v) ≡ padded (n * 2) v
unfolding bytes_of padded
to_hex-bytes_of zero v = refl
to_hex-bytes_of (suc n) v =
    let high : v % 256 / 16 ≡ v / 16 % 16 = omega arith in
    let low : v % 256 % 16 ≡ v % 16 = omega arith in
    let rest : v / 256 ≡ v / 16 / 16 = omega arith in
    let twice : suc (suc (n * 2)) ≡ suc n * 2 = omega arith in
    to_hex-append (bytes_of n (v / 256)) (v % 256 ∷ [])
    ∙ ap₂ ◌++◌ (to_hex-bytes_of n (v / 256))
        (ap₂ (λ a b. lower_digit a ∷ lower_digit b ∷ []) high low)
    ∙ ap (λ t. padded (n * 2) t ++ (lower_digit (v / 16 % 16) ∷ lower_digit (v % 16) ∷ [])) rest
    ∙ sym (
        append_assoc (padded (n * 2) (v / 16 / 16)) (lower_digit (v / 16 % 16) ∷ [])
          (lower_digit (v % 16) ∷ []))
    ∙ ap (λ k. padded k v) twice

bytes_of-IsByte : (n v : ℕ) → All IsByte (bytes_of n v)
unfolding bytes_of
bytes_of-IsByte zero v = tt
bytes_of-IsByte (suc n) v =
    All-append IsByte (bytes_of n (v / 256)) (v % 256 ∷ []) (bytes_of-IsByte n (v / 256))
      (omega arith, tt)

length-bytes_of : (n v : ℕ) → length (bytes_of n v) ≡ n
unfolding bytes_of
length-bytes_of zero v = refl
length-bytes_of (suc n) v =
    length-append (bytes_of n (v / 256)) (v % 256 ∷ []) ∙ omega (arith, length-bytes_of n (v / 256))

-- A counter below 256 to the power of the size, of 1 to 8 bytes, is printed as its bytes in that
-- size, the highest first, when the array has room for them.
pub format_extranonce2-to_hex :
    (out_size size value : ℕ)
    → size < 8
    → value < 16 ^ (suc size * 2)
    → suc size * 2 < out_size
    → format_extranonce2 out_size (suc size) value ≡ to_hex (bytes_of (suc size) value)
unfolding format_extranonce2
format_extranonce2-to_hex out_size size value small bound room =
    let chars : suc size * 2 ≡ suc (suc (size * 2)) = omega arith in
    let one : (suc size * 2 == 0) ≡ false = ground arith in
    let fits : ltb out_size (suc size * 2 + 1) ≡ false = ground arith in
    let digits = hex_digits 16 value in
    let padded_all : replicate (suc size * 2 - length digits) 48 ++ digits
        ≡ to_hex (bytes_of (suc size) value) =
      subst (λ k. replicate (k - length digits) 48 ++ digits ≡ padded k value) (sym chars)
        (hex_digits-padded (suc (size * 2)) 16 value (subst (λ k. value < 16 ^ k) chars bound)
          (omega arith))
      ∙ sym (to_hex-bytes_of (suc size) value) in
    let len : length (to_hex (bytes_of (suc size) value)) ≤ out_size - 1 =
      omega (arith, length-to_hex (bytes_of (suc size) value), length-bytes_of (suc size) value) in
    rw (one, fits) (ap (take (out_size - 1)) padded_all ∙ take_whole (out_size - 1) _ len)

-- So the coinbase reader takes it back as those bytes.
pub hex_to_bytes-format_extranonce2 :
    (out_size size value : ℕ)
    → size < 8
    → value < 16 ^ (suc size * 2)
    → suc size * 2 < out_size
    → hex_to_bytes (format_extranonce2 out_size (suc size) value) (suc size)
      ≡ some (bytes_of (suc size) value)
hex_to_bytes-format_extranonce2 out_size size value small bound room =
    let bytes = bytes_of (suc size) value in
    ap₂ hex_to_bytes (format_extranonce2-to_hex out_size size value small bound room)
      (sym (length-bytes_of (suc size) value))
    ∙ hex_to_bytes-to_hex bytes (bytes_of-IsByte (suc size) value)

hex_digits-longer : (n fuel v : ℕ) → 16 ^ n ≤ v → n < fuel → n < length (hex_digits fuel v)
unfolding hex_digits
hex_digits-longer n zero v h f = absurd (omega arith)
hex_digits-longer zero (suc fuel) v h f = elim (Bool-cases (v / 16 == 0)) [
  | inl e ↦ rw e (omega arith)
  | inr e ↦
      rw e (omega (arith, length-append (hex_digits fuel (v / 16)) (lower_digit (v % 16) ∷ [])))
]
hex_digits-longer (suc n) (suc fuel) v h f =
    let bound : 16 ^ n ≤ v / 16 = omega (arith, pow-suc 16 n) in
    let some_left : (v / 16 == 0) ≡ false = ground (arith, one-le-pow n 16 (omega arith)) in
    rw some_left (
      omega (
        arith,
        length-append (hex_digits fuel (v / 16)) (lower_digit (v % 16) ∷ []),
        hex_digits-longer n fuel (v / 16) bound (omega arith),
      ))

-- A counter that needs more digits than the size has is printed longer than the pool asked for, in
-- an array with room for 64 bits.
pub length-format_extranonce2 :
    (out_size size value : ℕ)
    → size < 7
    → 16 < out_size
    → 16 ^ (suc size * 2) ≤ value
    → suc size * 2 < length (format_extranonce2 out_size (suc size) value)
unfolding format_extranonce2
length-format_extranonce2 out_size size value small room big =
    let one : (suc size * 2 == 0) ≡ false = ground arith in
    let fits : ltb out_size (suc size * 2 + 1) ≡ false = ground arith in
    let digits = hex_digits 16 value in
    let long : suc size * 2 < length digits =
      hex_digits-longer (suc size * 2) 16 value big (omega arith) in
    rw (one, fits)
      (omega (
        arith,
        length-take (out_size - 1) (replicate (suc size * 2 - length digits) 48 ++ digits),
        length-append (replicate (suc size * 2 - length digits) 48) digits,
      ))
