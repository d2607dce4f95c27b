-- ===== src/Stratum/Lines.antt =====
-- The line reader of stratum.c: conn_read as read_line uses it, and read_line. `incoming` is what
-- the pool has sent and the connection has not yet given out.
pub mod Framing
pub mod Arrival
use btcrig.Base.{
  ℕ, zero, suc, ◌+◌, ◌-◌, ◌*◌, ◌/◌, ◌%◌, ◌^◌, ◌≤◌, ◌<◌, min, max, bit_and, bit_or, bit_xor, ◌≡◌,
  refl, sym, ap, ap₂, ◌∙◌, subst, ◌≢◌, ◌↔◌, ◌⊎◌, inl, inr, Bool, true, false, not, ◌&&◌, ◌||◌,
  Option, none, some, List, [], ◌∷◌, ◌++◌, map, arith, ltb, leb, ◌==◌, if◌then◌else◌, ltb→lt,
  lt→ltb, leb→le, ==_iff, tests, Bool-cases, Option-cases, length, get_or, set, take, drop,
  replicate, All, length-append, length-set, length-take, length-drop, length-replicate,
  take-append-drop, take_append, drop_append, get_or-set_self, get_or-set_ne, get_or-take,
  get_or_ext, All-append, All-take, All-drop, All-get_or, length-map, ◌>>=◌, take_whole,
  take-append,
}

-- sizeof(reader->buffer) and sizeof(line)
abbrev pub buffer_size : ℕ
buffer_size = 65536

-- What one turn of the loop meets when the buffer holds no line: nothing until the timeout, a wait
-- that fails or is interrupted, or a read. A read of `n` bytes gives no more than there are and no
-- more than the buffer has room for.
pub data Event : Type 0 where
  quiet : Event
  wait_failed : Event
  interrupted : Event
  read_bytes : ℕ → Event
  read_again : Event
  read_closed : Event
  read_failed : Event

-- What `read_line` returns: 1 with the line, -2, -3, 0 and -1.
pub data Outcome : Type 0 where
  got_line : List ℕ → Outcome
  too_long : Outcome
  timed_out : Outcome
  closed : Outcome
  failed : Outcome

pub record Reader : Type 0 where
  pub buffer : List ℕ
  pub incoming : List ℕ

-- The search for the end of a line: what stands before it and behind it.
unfoldable pub split_line : List ℕ → Option (List ℕ × List ℕ)
split_line [] = none
split_line (x ∷ xs) =
    if x == b'\n'
    then some ([], xs)
    else elim (split_line xs) [ none ↦ none | some parts ↦ some (x ∷ parts.0, parts.1) ]

-- One carriage return at the end is dropped.
unfoldable pub strip_return : List ℕ → List ℕ
strip_return [] = []
strip_return (x ∷ []) = if x == b'\r' then [] else x ∷ []
strip_return (x ∷ y ∷ xs) = x ∷ strip_return (y ∷ xs)

-- The line that is found: it is taken out of the buffer, unless it is too long for `out`.
unfoldable pub take_line : Reader → List ℕ × List ℕ → Outcome × Reader
unfolding strip_return
take_line r parts =
    let text = strip_return parts.0 in
    if leb buffer_size (length text)
    then (too_long, r)
    else (got_line text, record r { buffer = parts.1 })

-- A read that gives some bytes.
unfoldable pub receive : Reader → ℕ → Reader
receive r n =
    let count = min n (min (length r.incoming) (buffer_size - length r.buffer)) in
    record { buffer = r.buffer ++ take count r.incoming; incoming = drop count r.incoming }

-- What the loop finds without an event: a line, or a buffer that is full.
unfoldable pub at_hand : Reader → Option (Outcome × Reader)
unfolding split_line take_line
at_hand r = elim (split_line r.buffer) [
  | some parts ↦ some (take_line r parts)
  | none ↦ if length r.buffer == buffer_size then some (too_long, r) else none
]

-- What an event does, and the outcome with which it ends the loop.
unfoldable pub on_event : Event → Reader → Option Outcome × Reader
unfolding receive
on_event quiet r = (some timed_out, r)
on_event wait_failed r = (some failed, r)
on_event interrupted r = (none, r)
on_event (read_bytes n) r = (none, receive r n)
on_event read_again r = (none, r)
on_event read_closed r = (some closed, r)
on_event read_failed r = (some failed, r)

-- `read_line` on the events that it meets, which come out as far as they are left. `none` is a loop
-- that waits for another event.
unfoldable pub read_line : List Event → Reader → Option (Outcome × Reader × List Event)
unfolding at_hand on_event
read_line [] r = elim (at_hand r) [ none ↦ none | some found ↦ some (found.0, found.1, []) ]
read_line (e ∷ es) r =
    let met = on_event e r in
    let rest = read_line es met.1 in
    elim (at_hand r) [
      | some found ↦ some (found.0, found.1, e ∷ es)
      | none ↦ elim met.0 [ some outcome ↦ some (outcome, met.1, es) | none ↦ rest ]
    ]
