-- ===== src/Stratum/Connection/Sending.antt =====
-- What conn_write has sent.
use mathlib.Core.List.{append_assoc}
use mathlib.Core.Option.{none-ne-some, some-injective}
use btcrig.Base.{
  ℕ, ◌≤◌, ◌≡◌, refl, ap, ◌∙◌, subst, inl, inr, Bool, true, false, some, List, [], ◌∷◌, ◌++◌, map,
  arith, Option-cases, length, take, drop, length-drop, take-append-drop,
}
use btcrig.Stratum.Connection.{Sent, took, try_again, send_failed, conn_write}

-- Success: all of the text. Failure: a first part of it.
abbrev pub Delivered : List ℕ → Bool × List ℕ → Type 0
Delivered text (true, sent) = sent ≡ text
Delivered text (false, sent) = (rest : List ℕ) × (sent ++ rest ≡ text)

Delivered-append :
    (first text : List ℕ) (r : Bool × List ℕ)
    → Delivered text r
    → Delivered (first ++ text) (r.0, first ++ r.1)
Delivered-append first text (true, sent) h = ap (λ l. first ++ l) h
Delivered-append first text (false, sent) h =
    (h.0, append_assoc first sent h.0 ∙ ap (λ l. first ++ l) h.1)

-- Whatever sizes the parts have, and however often the call has to try again: conn_write reports
-- success only when all bytes have been sent, in their order, and when it fails the bytes that were
-- sent are a first part of them.
pub conn_write-Delivered :
    (text : List ℕ) (es : List Sent) (r : Bool × List ℕ)
    → conn_write text es ≡ some r
    → Delivered text r
unfolding conn_write
conn_write-Delivered [] es r e = subst (Delivered []) (some-injective _ _ e) refl
conn_write-Delivered (x ∷ xs) [] r e = absurd (none-ne-some _ e)
conn_write-Delivered (x ∷ xs) (send_failed ∷ es) r e =
    subst (Delivered (x ∷ xs)) (some-injective _ _ e) (x ∷ xs, refl)
conn_write-Delivered (x ∷ xs) (try_again ∷ es) r e = conn_write-Delivered (x ∷ xs) es r e
conn_write-Delivered (x ∷ xs) (took n ∷ es) r e = elim (Option-cases (conn_write (drop n xs) es)) [
  | inl waits ↦ absurd (none-ne-some _ (rw (waits, conn_write) at e))
  | inr found ↦
      let same = some-injective _ _ (rw (found.1, conn_write) at e) in
      let rest = conn_write-Delivered (drop n xs) es found.0 found.1 in
      let whole = ap (◌∷◌ x) (take-append-drop n xs) in
      subst (Delivered (x ∷ xs)) same (
        subst (λ l. Delivered l (found.0.0, x ∷ take n xs ++ found.0.1)) whole
          (Delivered-append (x ∷ take n xs) (drop n xs) found.0 rest))
]

-- Where each part has a byte or more, as many parts as there are bytes are enough.
pub conn_write_ends :
    (text : List ℕ) (sizes : List ℕ)
    → length text ≤ length sizes
    → conn_write text (map took sizes) ≡ some (true, text)
unfolding conn_write
conn_write_ends [] sizes h = refl
conn_write_ends (x ∷ xs) [] h = absurd (omega arith)
conn_write_ends (x ∷ xs) (n ∷ sizes) h =
    let shorter = length-drop n xs in
    let rest = conn_write_ends (drop n xs) sizes (omega arith) in
    rw (rest, conn_write) (ap (λ l. some (true, x ∷ l)) (take-append-drop n xs))
