-- ===== src/Stratum/Lines/Framing.antt =====
-- A line that the reader returns is the next line of the stream, whatever pieces it came in.
use mathlib.Core.List.{append_assoc}
use mathlib.Core.Option.{none-ne-some, some-injective}
use btcrig.Base.{
  ℕ, ◌-◌, min, ◌≡◌, refl, ap, ◌∙◌, subst, inl, inr, false, Option, none, some, List, [], ◌∷◌, ◌++◌,
  leb, ◌==◌, Bool-cases, Option-cases, length, take, drop, take-append-drop,
}
use btcrig.Stratum.Lines.{
  buffer_size, Event, quiet, wait_failed, interrupted, read_bytes, read_again, read_closed,
  read_failed, Outcome, got_line, too_long, timed_out, closed, failed, Reader, split_line,
  strip_return, take_line, receive, at_hand, on_event, read_line,
}

-- The stream from the next byte on that no line has taken.
abbrev pub unread : Reader → List ℕ
unread r = r.buffer ++ r.incoming

-- What `split_line` finds after a byte that ends no line.
abbrev pub behind : ℕ → Option (List ℕ × List ℕ) → Option (List ℕ × List ℕ)
behind x found = elim found [ none ↦ none | some parts ↦ some (x ∷ parts.0, parts.1) ]

pub split_line_more :
    (x : ℕ) (xs : List ℕ) → (x == b'\n') ≡ false → split_line (x ∷ xs) ≡ behind x (split_line xs)
unfolding split_line
split_line_more x xs more = rw more refl

pub split_line-append :
    (xs ys before after : List ℕ)
    → split_line xs ≡ some (before, after)
    → split_line (xs ++ ys) ≡ some (before, after ++ ys)
unfolding split_line
split_line-append [] ys before after e = absurd (none-ne-some _ e)
split_line-append (x ∷ xs) ys before after e = elim (Bool-cases (x == b'\n')) [
  | inl end ↦
      let here : some ([], xs) ≡ some (before, after) = rw end at e in
      let parts = some-injective _ _ here in rw end (λ i. some ((parts i).0, (parts i).1 ++ ys))
  | inr more ↦
      let later = rw more at e in
      elim (Option-cases (split_line xs)) [
        | inl missing ↦ absurd (none-ne-some _ (rw missing at later))
        | inr found ↦
            let parts = some-injective _ _ (rw found.1 at later) in
            let rest = split_line-append xs ys found.0.0 found.0.1 found.1 in
            rw (more, rest) (λ i. some ((parts i).0, (parts i).1 ++ ys))
      ]
]

pub receive-unread : (r : Reader) (n : ℕ) → unread (receive r n) ≡ unread r
unfolding receive
receive-unread r n =
    let count = min n (min (length r.incoming) (buffer_size - length r.buffer)) in
    append_assoc r.buffer (take count r.incoming) (drop count r.incoming)
    ∙ ap (λ l. r.buffer ++ l) (take-append-drop count r.incoming)

-- An outcome takes exactly the next line out of the stream, without its end, or nothing.
abbrev pub Framed : Outcome → List ℕ → List ℕ → Type 0
Framed (got_line text) before after =
    (raw : List ℕ) × (split_line before ≡ some (raw, after)) × (text ≡ strip_return raw)
Framed too_long before after = after ≡ before
Framed timed_out before after = after ≡ before
Framed closed before after = after ≡ before
Framed failed before after = after ≡ before

take_line-Framed :
    (r : Reader) (parts : List ℕ × List ℕ)
    → split_line (unread r) ≡ some (parts.0, parts.1 ++ r.incoming)
    → Framed (take_line r parts).0 (unread r) (unread (take_line r parts).1)
unfolding take_line
take_line-Framed r parts e = elim (Bool-cases (leb buffer_size (length (strip_return parts.0)))) [
  | inl long ↦ rw long refl
  | inr fits ↦ rw fits (parts.0, e, refl)
]

-- What ends the loop is one of three: a line at hand, a full buffer, an event.
at_hand-Framed :
    (r : Reader) (outcome : Outcome) (after : Reader)
    → at_hand r ≡ some (outcome, after)
    → Framed outcome (unread r) (unread after)
unfolding at_hand
at_hand-Framed r outcome after e = elim (Option-cases (split_line r.buffer)) [
  | inr found ↦
      let same = some-injective _ _ (rw (found.1, at_hand) at e) in
      let line = split_line-append r.buffer r.incoming found.0.0 found.0.1 found.1 in
      subst (λ (p : Outcome × Reader). Framed p.0 (unread r) (unread p.1)) same
        (take_line-Framed r found.0 line)
  | inl missing ↦ elim (Bool-cases (length r.buffer == buffer_size)) [
    | inl full ↦
        let same = some-injective _ _ (rw (missing, full, at_hand) at e) in
        subst (λ (p : Outcome × Reader). Framed p.0 (unread r) (unread p.1)) same refl
    | inr room ↦ absurd (none-ne-some _ (rw (missing, room, at_hand) at e))
  ]
]

on_event-unread : (e : Event) (r : Reader) → unread (on_event e r).1 ≡ unread r
unfolding on_event
on_event-unread quiet r = refl
on_event-unread wait_failed r = refl
on_event-unread interrupted r = refl
on_event-unread (read_bytes n) r = receive-unread r n
on_event-unread read_again r = refl
on_event-unread read_closed r = refl
on_event-unread read_failed r = refl

on_event-Framed :
    (e : Event) (r : Reader) (outcome : Outcome)
    → (on_event e r).0 ≡ some outcome
    → Framed outcome (unread r) (unread (on_event e r).1)
unfolding on_event
on_event-Framed quiet r outcome h =
    subst (λ o. Framed o (unread r) (unread r)) (some-injective _ _ h) refl
on_event-Framed wait_failed r outcome h =
    subst (λ o. Framed o (unread r) (unread r)) (some-injective _ _ h) refl
on_event-Framed interrupted r outcome h = absurd (none-ne-some _ h)
on_event-Framed (read_bytes n) r outcome h = absurd (none-ne-some _ h)
on_event-Framed read_again r outcome h = absurd (none-ne-some _ h)
on_event-Framed read_closed r outcome h =
    subst (λ o. Framed o (unread r) (unread r)) (some-injective _ _ h) refl
on_event-Framed read_failed r outcome h =
    subst (λ o. Framed o (unread r) (unread r)) (some-injective _ _ h) refl

-- Whatever events `read_line` meets, and in whatever pieces the bytes arrive: a line that it returns
-- is the next line of the stream without its line feed and one carriage return before that, and
-- the stream that is left begins behind it; with every other result no byte of the stream is
-- lost.
pub read_line-Framed :
    (es : List Event) (r : Reader) (outcome : Outcome) (after : Reader) (left : List Event)
    → read_line es r ≡ some (outcome, after, left)
    → Framed outcome (unread r) (unread after)
unfolding read_line
read_line-Framed [] r outcome after left h = elim (Option-cases (at_hand r)) [
  | inl missing ↦ absurd (none-ne-some _ (rw (missing, read_line) at h))
  | inr found ↦
      let same = some-injective _ _ (rw (found.1, read_line) at h) in
      subst (λ (p : Outcome × Reader × List Event). Framed p.0 (unread r) (unread p.1)) same
        (at_hand-Framed r found.0.0 found.0.1 found.1)
]
read_line-Framed (e ∷ es) r outcome after left h = elim (Option-cases (at_hand r)) [
  | inr found ↦
      let same = some-injective _ _ (rw (found.1, read_line) at h) in
      subst (λ (p : Outcome × Reader × List Event). Framed p.0 (unread r) (unread p.1)) same
        (at_hand-Framed r found.0.0 found.0.1 found.1)
  | inl missing ↦ elim (Option-cases (on_event e r).0) [
    | inr ended ↦
        let same = some-injective _ _ (rw (missing, ended.1, read_line) at h) in
        subst (λ (p : Outcome × Reader × List Event). Framed p.0 (unread r) (unread p.1)) same
          (on_event-Framed e r ended.0 ended.1)
    | inl going ↦
        let later = rw (missing, going, read_line) at h in
        subst (λ l. Framed outcome l (unread after)) (on_event-unread e r)
          (read_line-Framed es (on_event e r).1 outcome after left later)
  ]
]
