-- ===== src/Relay/Faithful.antt =====
-- The bytes that the relay has read from one side are those that it has written to the other and
-- those that wait, in order.
use mathlib.Core.List.{append_assoc, append-nil}
use btcrig.Base.{
  ℕ, suc, ◌-◌, ◌≤◌, min, ◌≡◌, refl, sym, ap, ap₂, ◌∙◌, inl, inr, Bool, true, false, ◌&&◌, List, [],
  ◌∷◌, ◌++◌, arith, Bool-cases, length, take, drop, length-append, length-take, length-drop,
  take_append,
}
use btcrig.Relay.{
  data_size, Read, got, ended, read_later, read_broken, Write, wrote, write_later, write_broken,
  Direction, Relay, Round, buffer_empty, pending, Move, moved, still, broken, advance, cut_read,
  load, write_some, write_out, read_some, read_in, on_c2u, on_u2c, next, send_up, send_down,
  take_up, take_down, wait, round, relay_init, proxy_loop,
}
use btcrig.Relay.Pending.{pending_none, advance-pending, advance_bounds}

-- A direction in order: the buffer's bounds, and no byte lost, doubled or moved.
pub record Faithful (d : Direction) : Type 0 where
  pub within : d.buffer.off ≤ d.buffer.len
  pub fits : d.buffer.len ≤ data_size
  pub array : length d.buffer.bytes ≡ data_size
  pub in_order : d.given ++ pending d.buffer ≡ d.taken

-- The direction that a call leaves.
unfoldable pub left : Move → Direction
left (moved d) = d
left (still d) = d
left (broken d) = d

length-cut_read : (x : ℕ) (xs : List ℕ) → length (cut_read x xs) ≤ data_size
unfolding cut_read
length-cut_read x xs = omega (arith, length-take (data_size - 1) xs)

write_some-Faithful : (w : Write) (d : Direction) → Faithful d → Faithful (left (write_some w d))
unfolding left write_some
write_some-Faithful (wrote n) d f =
    let count = min (suc n) (d.buffer.len - d.buffer.off) in
    let bounds = advance_bounds d.buffer count f.within in
    let kept = f.fits in
    let kept_array = f.array in
    record {
      within = bounds.0;
      fits = omega arith;
      array = ap length bounds.2 ∙ kept_array;
      in_order =
          append_assoc d.given (take count (pending d.buffer)) (pending (advance d.buffer count))
          ∙ ap (λ l. d.given ++ l) (advance-pending d.buffer count (omega arith))
          ∙ f.in_order;
    }
write_some-Faithful write_later d f = f
write_some-Faithful write_broken d f = f

pending_loaded :
    (read others : List ℕ)
    → pending (record { bytes = read ++ others; off = 0; len = length read }) ≡ read
unfolding pending
pending_loaded read others = take_append read others (length read - 0) (omega arith)

load-Faithful :
    (read : List ℕ) (d : Direction)
    → length read ≤ data_size
    → buffer_empty d.buffer ≡ true
    → Faithful d
    → Faithful (load read d)
unfolding load buffer_empty
load-Faithful read d short e f =
    let kept = f.array in
    record {
      within = omega arith;
      fits = short;
      array =
          length-append read (drop (length read) d.buffer.bytes)
          ∙ omega (arith, length-drop (length read) d.buffer.bytes);
      in_order =
          ap₂ ◌++◌
            (sym (append-nil d.given)
              ∙ ap (λ l. d.given ++ l) (sym (pending_none d.buffer e))
              ∙ f.in_order)
            (pending_loaded read (drop (length read) d.buffer.bytes));
    }

read_some-Faithful :
    (r : Read) (d : Direction)
    → buffer_empty d.buffer ≡ true
    → Faithful d
    → Faithful (left (read_some r d))
unfolding left read_some
read_some-Faithful (got x xs) d e f = load-Faithful (cut_read x xs) d (length-cut_read x xs) e f
read_some-Faithful ended d e f = record {
  within = f.within;
  fits = f.fits;
  array = f.array;
  in_order = f.in_order;
}
read_some-Faithful read_later d e f = f
read_some-Faithful read_broken d e f = f

both_true : (a b : Bool) → (a && b) ≡ true → b ≡ true
both_true true b h = h
both_true false b h = cc

pub write_out-Faithful : (w : Write) (d : Direction) → Faithful d → Faithful (left (write_out w d))
unfolding write_out left
write_out-Faithful w d f = elim (Bool-cases (buffer_empty d.buffer)) [
  | inl empty ↦ rw (empty, write_out) f
  | inr waiting ↦ rw (waiting, write_out) (write_some-Faithful w d f)
]

read_in-Faithful : (r : Read) (d : Direction) → Faithful d → Faithful (left (read_in r d))
unfolding read_in left
read_in-Faithful r d f = elim (Bool-cases (d.is_open && buffer_empty d.buffer)) [
  | inl ready ↦ rw (ready, read_in) (read_some-Faithful r d (both_true d.is_open _ ready) f)
  | inr busy ↦ rw (busy, read_in) f
]

-- Both directions are in order.
abbrev pub FaithfulRelay : Relay → Type 0
FaithfulRelay s = Faithful s.c2u × Faithful s.u2c

on_c2u-Faithful :
    (m : Move) (s : Relay) → Faithful (left m) → FaithfulRelay s → FaithfulRelay (on_c2u m s).1
unfolding on_c2u left
on_c2u-Faithful (moved d) s f kept = (f, kept.1)
on_c2u-Faithful (still d) s f kept = (f, kept.1)
on_c2u-Faithful (broken d) s f kept = (f, kept.1)

on_u2c-Faithful :
    (m : Move) (s : Relay) → Faithful (left m) → FaithfulRelay s → FaithfulRelay (on_u2c m s).1
unfolding on_u2c left
on_u2c-Faithful (moved d) s f kept = (kept.0, f)
on_u2c-Faithful (still d) s f kept = (kept.0, f)
on_u2c-Faithful (broken d) s f kept = (kept.0, f)

next-Faithful :
    (call : Relay → Bool × Relay) (at_call : Bool × Relay)
    → ((s : Relay) → FaithfulRelay s → FaithfulRelay (call s).1)
    → FaithfulRelay at_call.1
    → FaithfulRelay (next call at_call).1
unfolding next
next-Faithful call (true, s) step kept = step s kept
next-Faithful call (false, s) step kept = kept

round-Faithful : (w : Round) (s : Relay) → FaithfulRelay s → FaithfulRelay (round w s).1
unfolding round wait send_up send_down take_up take_down
round-Faithful w s kept =
    let begun : Relay = record s { progress = false } in
    let first : FaithfulRelay (send_up w begun).1 =
      on_c2u-Faithful (write_out w.to_upstream s.c2u) begun
        (write_out-Faithful w.to_upstream s.c2u kept.0) kept in
    let second =
      next-Faithful (send_down w) (send_up w begun)
        (λ (t : Relay) k. on_u2c-Faithful _ t (write_out-Faithful w.to_client t.u2c k.1) k) first in
    let third =
      next-Faithful (take_up w) (next (send_down w) (send_up w begun))
        (λ (t : Relay) k. on_c2u-Faithful _ t (read_in-Faithful w.from_client t.c2u k.0) k)
        second in
    let fourth =
      next-Faithful (take_down w) (next (take_up w) (next (send_down w) (send_up w begun)))
        (λ (t : Relay) k. on_u2c-Faithful _ t (read_in-Faithful w.from_upstream t.u2c k.1) k)
        third in
    next-Faithful (wait w.wait_fails) _ (λ (t : Relay) k. k) fourth

-- Whatever the two sockets report: of the bytes that the relay has read from a side, it has written a
-- first part to the other side, in order and unchanged, and the rest waits in that direction's
-- buffer, which is never overrun. The arrays may hold anything when the relay starts.
pub proxy_loop-Faithful :
    (ws : List Round) (s : Relay) → FaithfulRelay s → FaithfulRelay (proxy_loop ws s).1
unfolding proxy_loop
proxy_loop-Faithful [] s kept = kept
proxy_loop-Faithful (w ∷ ws) s kept =
    next-Faithful (proxy_loop ws) (round w s) (proxy_loop-Faithful ws) (round-Faithful w s kept)

pub relay_init-Faithful :
    (up down : List ℕ)
    → length up ≡ data_size
    → length down ≡ data_size
    → FaithfulRelay (relay_init up down)
unfolding relay_init pending
relay_init-Faithful up down hu hd = (
  record { within = omega arith; fits = omega arith; array = hu; in_order = refl },
  record { within = omega arith; fits = omega arith; array = hd; in_order = refl },
)
