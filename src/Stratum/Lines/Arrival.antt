-- ===== src/Stratum/Lines/Arrival.antt =====
-- A line that the pool sends comes out of the reader.
use mathlib.Core.Option.{none-ne-some, some-injective}
use btcrig.Base.{
  ℕ, suc, ◌-◌, ◌≤◌, ◌<◌, min, ◌≡◌, refl, sym, ap, ◌∙◌, subst, inl, inr, false, none, some, List, [],
  ◌∷◌, ◌++◌, map, arith, leb, ◌==◌, Bool-cases, Option-cases, length, All, length-append,
  length-drop,
}
use btcrig.Stratum.Lines.{
  buffer_size, Event, read_bytes, Outcome, got_line, Reader, split_line, strip_return, take_line,
  receive, at_hand, on_event, read_line,
}
use btcrig.Stratum.Lines.Framing.{split_line-append, unread, receive-unread}

split_line-length :
    (xs raw rest : List ℕ) → split_line xs ≡ some (raw, rest) → length raw < length xs
unfolding split_line
split_line-length [] raw rest e = absurd (none-ne-some _ e)
split_line-length (x ∷ xs) raw rest e = elim (Bool-cases (x == b'\n')) [
  | inl end ↦
      let same = some-injective _ _ (rw end at e) in
      subst (λ (p : List ℕ × List ℕ). length p.0 < suc (length xs)) same (omega arith)
  | inr more ↦ elim (Option-cases (split_line xs)) [
    | inl missing ↦ absurd (none-ne-some _ (rw (more, missing) at e))
    | inr found ↦
        let same = some-injective _ _ (rw (more, found.1) at e) in
        let shorter = split_line-length xs found.0.0 found.0.1 found.1 in
        subst (λ (p : List ℕ × List ℕ). length p.0 < suc (length xs)) same (omega arith)
  ]
]

-- Where the stream has a line and its first part has none, the first part ends inside the line.
split_line_cut :
    (xs ys raw rest : List ℕ)
    → split_line (xs ++ ys) ≡ some (raw, rest)
    → split_line xs ≡ none
    → length xs ≤ length raw
unfolding split_line
split_line_cut [] ys raw rest e missing = omega arith
split_line_cut (x ∷ xs) ys raw rest e missing = elim (Bool-cases (x == b'\n')) [
  | inl end ↦ absurd (none-ne-some _ (sym (rw end at missing)))
  | inr more ↦ elim (Option-cases (split_line (xs ++ ys))) [
    | inl gone ↦ absurd (none-ne-some _ (rw (more, gone) at e))
    | inr found ↦ elim (Option-cases (split_line xs)) [
      | inr early ↦ absurd (none-ne-some _ (sym (rw (more, early.1) at missing)))
      | inl missing_yet ↦
          let same = some-injective _ _ (rw (more, found.1) at e) in
          let inside = split_line_cut xs ys found.0.0 found.0.1 found.1 missing_yet in
          subst (λ (p : List ℕ × List ℕ). suc (length xs) ≤ length p.0) same (omega arith)
    ]
  ]
]

-- No more than one carriage return is taken off.
length-strip_return : (xs : List ℕ) → length (strip_return xs) ≤ length xs
unfolding strip_return
length-strip_return [] = omega arith
length-strip_return (x ∷ []) = ground arith
length-strip_return (x ∷ y ∷ xs) = omega (arith, length-strip_return (y ∷ xs))

take_line-got :
    (r : Reader) (raw rest : List ℕ)
    → length raw < buffer_size
    → take_line r (raw, rest) ≡ (got_line (strip_return raw), record r { buffer = rest })
unfolding take_line
take_line-got r raw rest h =
    let shorter = length-strip_return raw in
    let fits : leb buffer_size (length (strip_return raw)) ≡ false = ground (arith, shorter) in
    rw fits refl

at_hand_now :
    (r : Reader) (parts : List ℕ × List ℕ) (raw rest : List ℕ)
    → split_line r.buffer ≡ some parts
    → split_line (unread r) ≡ some (raw, rest)
    → length raw < buffer_size
    → at_hand r ≡ some (got_line (strip_return raw), record r { buffer = parts.1 })
unfolding at_hand
at_hand_now r parts raw rest found line short =
    let whole = split_line-append r.buffer r.incoming parts.0 parts.1 found in
    let same = some-injective _ _ (sym whole ∙ line) in
    let same_raw : parts.0 ≡ raw = ap (λ (p : List ℕ × List ℕ). p.0) same in
    let short_here = subst (λ l. length l < buffer_size) (sym same_raw) short in
    rw (found, at_hand)
      (ap some (take_line-got r parts.0 parts.1 short_here)
        ∙ ap (λ l. some (got_line (strip_return l), record r { buffer = parts.1 })) same_raw)

read_line_now :
    (es : List Event) (r : Reader) (found : Outcome × Reader)
    → at_hand r ≡ some found
    → (left : List Event) × (read_line es r ≡ some (found.0, found.1, left))
unfolding read_line
read_line_now [] r found e = ([], (rw (e, read_line) refl))
read_line_now (x ∷ es) r found e = (x ∷ es, (rw (e, read_line) refl))

at_hand_later :
    (r : Reader) → split_line r.buffer ≡ none → length r.buffer < buffer_size → at_hand r ≡ none
unfolding at_hand
at_hand_later r missing room =
    let not_full : (length r.buffer == buffer_size) ≡ false = ground arith in
    rw (missing, not_full, at_hand) refl

-- A read of some bytes takes at least one, where there is one and the buffer has room.
length-receive :
    (r : Reader) (n : ℕ)
    → 0 < n
    → 0 < length r.incoming
    → length r.buffer < buffer_size
    → length (receive r n).incoming < length r.incoming
unfolding receive
length-receive r n some_byte more room =
    let count = min n (min (length r.incoming) (buffer_size - length r.buffer)) in
    omega (arith, length-drop count r.incoming)

arrival_now :
    (es : List Event) (r : Reader) (parts : List ℕ × List ℕ) (raw rest : List ℕ)
    → split_line r.buffer ≡ some parts
    → split_line (unread r) ≡ some (raw, rest)
    → length raw < buffer_size
    → (after : Reader) × (left : List Event) × (read_line es r
        ≡ some (got_line (strip_return raw), after, left))
arrival_now es r parts raw rest found line short =
    let done = read_line_now es r _ (at_hand_now r parts raw rest found line short) in
    (record r { buffer = parts.1 }, done.0, done.1)

-- Without a line in the buffer, the buffer is shorter than the line and more is to come.
on_its_way :
    (r : Reader) (raw rest : List ℕ)
    → split_line (unread r) ≡ some (raw, rest)
    → split_line r.buffer ≡ none
    → (length r.buffer ≤ length raw) × (0 < length r.incoming)
on_its_way r raw rest line missing =
    let inside = split_line_cut r.buffer r.incoming raw rest line missing in
    let shorter = split_line-length (unread r) raw rest line in
    let whole = length-append r.buffer r.incoming in (inside, (omega arith))

-- If the stream holds a line that is shorter than the buffer, and the pool's bytes arrive by reads
-- of any sizes but zero, then `read_line` returns that line, after no more reads than there are
-- bytes.
pub read_line-arrival :
    (sizes : List ℕ) (r : Reader) (raw rest : List ℕ)
    → split_line (unread r) ≡ some (raw, rest)
    → length raw < buffer_size
    → All (λ n. 0 < n) sizes
    → length r.incoming ≤ length sizes
    → (after : Reader) × (left : List Event) × (read_line (map read_bytes sizes) r
        ≡ some (got_line (strip_return raw), after, left))
unfolding read_line on_event
read_line-arrival [] r raw rest line short positive enough =
    elim (Option-cases (split_line r.buffer)) [
      | inr found ↦ arrival_now [] r found.0 raw rest found.1 line short
      | inl missing ↦ absurd (omega (arith, on_its_way r raw rest line missing))
    ]
read_line-arrival (n ∷ ns) r raw rest line short positive enough =
    elim (Option-cases (split_line r.buffer)) [
      | inr found ↦ arrival_now (map read_bytes (n ∷ ns)) r found.0 raw rest found.1 line short
      | inl missing ↦
          let inside = on_its_way r raw rest line missing in
          let later = at_hand_later r missing (omega arith) in
          let fewer = length-receive r n positive.0 (omega arith) (omega arith) in
          let line_still = sym (ap split_line (sym (receive-unread r n))) ∙ line in
          let result =
            read_line-arrival ns (receive r n) raw rest line_still short positive.1 (omega arith) in
          (result.0, result.1, (rw (later, read_line) result.2))
    ]
