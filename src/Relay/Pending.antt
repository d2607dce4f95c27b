-- ===== src/Relay/Pending.antt =====
-- What waits in a buffer, and what a write leaves of it.
use mathlib.Core.List.{append-nil}
use btcrig.Base.{
  ℕ, zero, suc, ◌+◌, ◌-◌, ◌≤◌, ◌≡◌, refl, sym, ap, ap₂, ◌∙◌, inl, inr, true, List, [], ◌∷◌, ◌++◌,
  arith, leb, Bool-cases, length, take, drop, length-take, take_whole,
}
use btcrig.Relay.{Buffer, buffer_empty, buffer_reset, pending, advance}

pub take-nil : (n : ℕ) → take {A = ℕ} n [] ≡ []
take-nil zero = refl
take-nil (suc n) = refl

pub take_split :
    (m k : ℕ) (xs : List ℕ) → k ≤ m → take k (take m xs) ++ take (m - k) (drop k xs) ≡ take m xs
take_split m zero xs h = let same : m - 0 ≡ m = omega arith in ap (λ n. take n xs) same
take_split zero (suc k) xs h = absurd (omega arith)
take_split (suc m) (suc k) [] h = take-nil (suc m - suc k)
take_split (suc m) (suc k) (x ∷ xs) h =
    let same : suc m - suc k ≡ m - k = omega arith in
    ap (◌∷◌ x)
      (ap (λ n. take k (take m xs) ++ take n (drop k xs)) same ∙ take_split m k xs (omega arith))

pub drop-nil : (n : ℕ) → drop {A = ℕ} n [] ≡ []
drop-nil zero = refl
drop-nil (suc n) = refl

pub drop-drop : (m k : ℕ) (xs : List ℕ) → drop k (drop m xs) ≡ drop (m + k) xs
drop-drop zero k xs = let same : k ≡ 0 + k = omega arith in ap (λ n. drop n xs) same
drop-drop (suc m) k [] = drop-nil k ∙ sym (drop-nil (suc m + k))
drop-drop (suc m) k (x ∷ xs) =
    let same : suc (m + k) ≡ suc m + k = omega arith in
    drop-drop m k xs ∙ ap (λ n. drop n (x ∷ xs)) same

pub pending_none : (b : Buffer) → buffer_empty b ≡ true → pending b ≡ []
unfolding pending buffer_empty
pending_none b e =
    let none_left : b.len - b.off ≡ 0 = ground arith in
    ap (λ n. take n (drop b.off b.bytes)) none_left

pub length-pending : (b : Buffer) → length (pending b) ≤ b.len - b.off
unfolding pending
length-pending b = omega (arith, length-take (b.len - b.off) (drop b.off b.bytes))

pub pending_later :
    (b : Buffer) (count : ℕ)
    → count ≤ b.len - b.off
    → take count (pending b) ++ pending (record b { off = b.off + count }) ≡ pending b
unfolding pending
pending_later b count h =
    let same : b.len - (b.off + count) ≡ b.len - b.off - count = omega arith in
    ap₂ (λ n l. take count (take (b.len - b.off) (drop b.off b.bytes)) ++ take n l) same
      (sym (drop-drop b.off count b.bytes))
    ∙ take_split (b.len - b.off) count (drop b.off b.bytes) h

pub advance-pending :
    (b : Buffer) (count : ℕ)
    → count ≤ b.len - b.off
    → take count (pending b) ++ pending (advance b count) ≡ pending b
unfolding advance buffer_empty buffer_reset
advance-pending b count h = elim (Bool-cases (leb b.len (b.off + count))) [
  | inl all ↦
      let short = length-pending b in
      rw (all, advance)
        (ap (λ l. take count (pending b) ++ l) (pending_none (buffer_reset b) refl)
          ∙ append-nil (take count (pending b))
          ∙ take_whole count (pending b) (ground (arith, all, short)))
  | inr some_left ↦ rw (some_left, advance) (pending_later b count h)
]

pub advance_bounds :
    (b : Buffer) (count : ℕ)
    → b.off ≤ b.len
    → ((advance b count).off ≤ (advance b count).len)
      × ((advance b count).len ≤ b.len)
      × ((advance b count).bytes ≡ b.bytes)
unfolding advance buffer_empty buffer_reset
advance_bounds b count h = elim (Bool-cases (leb b.len (b.off + count))) [
  | inl all ↦ rw (all, advance) (omega arith, omega arith, refl)
  | inr some_left ↦ rw (some_left, advance) (ground arith, omega arith, refl)
]
