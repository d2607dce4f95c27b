-- ===== src/Hex/RoundTrip.antt =====
-- Printed bytes are read back, and what the reader accepts is a print, in either case of letters.
use btcrig.Base.{
  ℕ, zero, suc, ◌+◌, ◌-◌, ◌*◌, ◌/◌, ◌%◌, ◌<◌, ◌≡◌, refl, ap, ap₂, ◌∙◌, ◌⊎◌, inl, inr, true, false,
  not, ◌&&◌, ◌||◌, Option, none, some, List, [], ◌∷◌, ◌++◌, map, arith, ltb, leb, ◌==◌,
  if◌then◌else◌, Bool-cases, length, All,
}
use btcrig.Word.{u8}
use btcrig.Word.Fields.{bit_or_fields}
use btcrig.Word.Swap.{IsByte}
use btcrig.Hex.{hex_value, byte_of, cons_some, hex_loop, hex_to_bytes, hex_to_alloc}

-- The digit of a number below 16, in lower case.
abbrev pub digit : ℕ → ℕ
digit d = if ltb d 10 then 48 + d else 87 + d

-- Two digits for each byte, the high one first.
abbrev pub to_hex : List ℕ → List ℕ
to_hex [] = []
to_hex (b ∷ bs) = digit (b / 16) ∷ digit (b % 16) ∷ to_hex bs

-- The letters A to F become a to f.
abbrev pub lower : ℕ → ℕ
lower c = if leb 65 c && leb c 70 then c + 32 else c

pub length-to_hex : (bs : List ℕ) → length (to_hex bs) ≡ 2 * length bs
length-to_hex [] = refl
length-to_hex (b ∷ bs) = omega (arith, length-to_hex bs)

pub to_hex-append : (xs bs : List ℕ) → to_hex (xs ++ bs) ≡ to_hex xs ++ to_hex bs
to_hex-append [] bs = refl
to_hex-append (x ∷ xs) bs = ap (λ t. digit (x / 16) ∷ digit (x % 16) ∷ t) (to_hex-append xs bs)

hex_value-digit : (d : ℕ) → d < 16 → hex_value (digit d) ≡ some d
unfolding hex_value
hex_value-digit d h = elim (Bool-cases (ltb d 10)) [ inl e ↦ ground arith | inr e ↦ ground arith ]

byte_of-some : (hi lo : ℕ) → hi < 16 → lo < 16 → byte_of (some hi) (some lo) ≡ some (hi * 16 + lo)
unfolding byte_of
byte_of-some hi lo h l = ap some (ap u8 (bit_or_fields 4 hi lo l) ∙ omega arith)

pub hex_loop-to_hex : (bs : List ℕ) → All IsByte bs → hex_loop (length bs) (to_hex bs) ≡ some bs
unfolding hex_loop
hex_loop-to_hex [] h = refl
hex_loop-to_hex (b ∷ bs) h =
    let hi : b / 16 < 16 = omega arith in
    let lo : b % 16 < 16 = omega arith in
    let whole : b / 16 * 16 + b % 16 ≡ b = omega arith in
    ap₂ cons_some
      (ap₂ byte_of (hex_value-digit (b / 16) hi) (hex_value-digit (b % 16) lo)
        ∙ byte_of-some _ _ hi lo
        ∙ ap some whole)
      (hex_loop-to_hex bs h.1)

-- The lower-case print of bytes is read back whole.
pub hex_to_bytes-to_hex :
    (bs : List ℕ) → All IsByte bs → hex_to_bytes (to_hex bs) (length bs) ≡ some bs
unfolding hex_to_bytes
hex_to_bytes-to_hex bs h =
    let even : (length (to_hex bs) % 2 == 1) ≡ false = ground (arith, length-to_hex bs) in
    let half : (length (to_hex bs) / 2 == length bs) ≡ true = ground (arith, length-to_hex bs) in
    rw (even, half) (hex_loop-to_hex bs h)

pub hex_to_alloc-to_hex : (bs : List ℕ) → All IsByte bs → hex_to_alloc (to_hex bs) ≡ some bs
unfolding hex_to_alloc
hex_to_alloc-to_hex bs h =
    let even : (length (to_hex bs) % 2 == 1) ≡ false = ground (arith, length-to_hex bs) in
    let half : length (to_hex bs) / 2 ≡ length bs = omega (arith, length-to_hex bs) in
    let same : (length bs == length bs) ≡ true = ground arith in
    rw (even, half, same) (hex_loop-to_hex bs h)

hex_value-cases :
    (c : ℕ)
    → (hex_value c ≡ none) ⊎ ((d : ℕ) × (hex_value c ≡ some d) × (d < 16) × (digit d ≡ lower c))
unfolding hex_value
hex_value-cases c = elim (Bool-cases (leb 48 c && leb c 57)) [
  | inl a ↦ inr (c - 48, ground arith, ground arith, ground arith)
  | inr a ↦ elim (Bool-cases (leb 97 c && leb c 102)) [
    | inl b ↦ inr (c - 97 + 10, ground arith, ground arith, ground arith)
    | inr b ↦ elim (Bool-cases (leb 65 c && leb c 70)) [
      | inl l ↦ inr (c - 65 + 10, ground arith, ground arith, ground arith)
      | inr l ↦ inl (rw (a, b, l) refl)
    ]
  ]
]

-- What is accepted has the digits of its bytes.
unfoldable pub Spelt : List ℕ → ℕ → Option (List ℕ) → Type 0
Spelt hex n none = Unit
Spelt hex n (some bs) = (length bs ≡ n) × All IsByte bs × (to_hex bs ≡ map lower hex)

Spelt-cons_some :
    (x y hi lo n : ℕ) (hex : List ℕ) (r : Option (List ℕ))
    → hi < 16
    → lo < 16
    → digit hi ≡ lower x
    → digit lo ≡ lower y
    → Spelt hex n r
    → Spelt (x ∷ y ∷ hex) (suc n) (cons_some (byte_of (some hi) (some lo)) r)
unfolding Spelt cons_some
Spelt-cons_some x y hi lo n hex none hh hl ex ey h = rw (byte_of-some hi lo hh hl) tt
Spelt-cons_some x y hi lo n hex (some bs) hh hl ex ey (e, bytes, same) =
    let high : (hi * 16 + lo) / 16 ≡ hi = omega arith in
    let low : (hi * 16 + lo) % 16 ≡ lo = omega arith in
    rw (byte_of-some hi lo hh hl) (
      ap suc e,
      (omega arith, bytes),
      ap₂ ◌∷◌ (ap digit high ∙ ex) (ap₂ ◌∷◌ (ap digit low ∙ ey) same),
    )

hex_loop-Spelt : (n : ℕ) (hex : List ℕ) → length hex ≡ 2 * n → Spelt hex n (hex_loop n hex)
unfolding hex_loop Spelt
hex_loop-Spelt zero [] h = (refl, tt, refl)
hex_loop-Spelt zero (x ∷ hex) h = absurd (omega arith)
hex_loop-Spelt (suc n) [] h = absurd (omega arith)
hex_loop-Spelt (suc n) (x ∷ []) h = absurd (omega arith)
hex_loop-Spelt (suc n) (x ∷ y ∷ hex) h =
    let rest : Spelt hex n (hex_loop n hex) = hex_loop-Spelt n hex (omega arith) in
    elim (hex_value-cases x) [
      | inl e ↦ rw e tt
      | inr (hi, e, hh, ex) ↦ elim (hex_value-cases y) [
        | inl e' ↦ rw (e, e') tt
        | inr (lo, e', hl, ey) ↦
            rw (e, e') (Spelt-cons_some x y hi lo n hex (hex_loop n hex) hh hl ex ey rest)
      ]
    ]

-- Bytes that are read are as many as asked for, and their lower-case print is the string with its
-- letters in lower case.
pub hex_to_bytes-Spelt : (hex : List ℕ) (n : ℕ) → Spelt hex n (hex_to_bytes hex n)
unfolding hex_to_bytes Spelt
hex_to_bytes-Spelt hex n = elim (Bool-cases ((length hex % 2 == 1) || not (length hex / 2 == n))) [
  | inl e ↦ rw e tt
  | inr e ↦ rw e (hex_loop-Spelt n hex (ground arith))
]
