-- ===== src/Relay.antt =====
-- The relay of proxy_main.c: proxy_loop between a client and the upstream pool, with buffer_empty and
-- buffer_reset. What stream_read and stream_write report is given to a round as data.
pub mod Pending
pub mod Faithful
pub mod Delivers
use btcrig.Base.{
  ℕ, zero, suc, ◌+◌, ◌-◌, ◌*◌, ◌/◌, ◌%◌, ◌^◌, ◌≤◌, ◌<◌, min, max, bit_and, bit_or, bit_xor, ◌≡◌,
  refl, sym, ap, ap₂, ◌∙◌, subst, ◌≢◌, ◌↔◌, ◌⊎◌, inl, inr, Bool, true, false, not, ◌&&◌, ◌||◌,
  Option, none, some, List, [], ◌∷◌, ◌++◌, map, arith, ltb, leb, ◌==◌, if◌then◌else◌, ltb→lt,
  lt→ltb, leb→le, ==_iff, tests, Bool-cases, Option-cases, length, get_or, set, take, drop,
  replicate, All, length-append, length-set, length-take, length-drop, length-replicate,
  take-append-drop, take_append, drop_append, get_or-set_self, get_or-set_ne, get_or-take,
  get_or_ext, All-append, All-take, All-drop, All-get_or, length-map, ◌>>=◌, take_whole,
  take-append, range_from, range_from-suc,
}

-- sizeof(data) of a buffer_t
abbrev pub data_size : ℕ
data_size = 32768

-- A buffer_t: the array, and the part of it that waits to be written.
pub record Buffer : Type 0 where
  pub bytes : List ℕ
  pub off : ℕ
  pub len : ℕ

-- What stream_read reports: bytes (a first one and others, as many as fit), the end of the stream, -2
-- and -1.
pub data Read : Type 0 where
  got : ℕ → List ℕ → Read
  ended : Read
  read_later : Read
  read_broken : Read

-- What stream_write reports: that one byte and up to `n` others were written, -2, and 0 or -1.
pub data Write : Type 0 where
  wrote : ℕ → Write
  write_later : Write
  write_broken : Write

-- One direction: its buffer, what was read from the one side and what was written to the other.
pub record Direction : Type 0 where
  pub buffer : Buffer
  pub taken : List ℕ
  pub given : List ℕ
  pub is_open : Bool

-- The variables of proxy_loop
pub record Relay : Type 0 where
  pub c2u : Direction
  pub u2c : Direction
  pub progress : Bool

-- What the calls of one round report; `wait_fails` is select's error other than EINTR.
pub record Round : Type 0 where
  pub to_upstream : Write
  pub to_client : Write
  pub from_client : Read
  pub from_upstream : Read
  pub wait_fails : Bool

unfoldable pub buffer_empty : Buffer → Bool
buffer_empty b = leb b.len b.off

unfoldable pub buffer_reset : Buffer → Buffer
buffer_reset b = record b { off = 0; len = 0 }

-- The bytes that a write is given.
unfoldable pub pending : Buffer → List ℕ
pending b = take (b.len - b.off) (drop b.off b.bytes)

-- What one call came to: it goes on, with or without progress, or the loop breaks.
pub data Move : Type 0 where
  moved : Direction → Move
  still : Direction → Move
  broken : Direction → Move

-- A write of `count` bytes: the buffer is moved on, and reset where it is empty then.
unfoldable pub advance : Buffer → ℕ → Buffer
unfolding buffer_empty buffer_reset
advance b count =
    let on : Buffer = record b { off = b.off + count } in
    if buffer_empty on then buffer_reset on else on

-- stream_write on the bytes that wait.
unfoldable pub write_some : Write → Direction → Move
unfolding advance pending
write_some (wrote n) d =
    let count = min (suc n) (d.buffer.len - d.buffer.off) in
    moved (record d {
      buffer = advance d.buffer count;
      given = d.given ++ take count (pending d.buffer);
    })
write_some write_later d = still d
write_some write_broken d = broken d

unfoldable pub write_out : Write → Direction → Move
unfolding buffer_empty write_some
write_out w d = if buffer_empty d.buffer then still d else write_some w d

-- The bytes that a read gives: no more than the array holds.
unfoldable pub cut_read : ℕ → List ℕ → List ℕ
cut_read x xs = x ∷ take (data_size - 1) xs

-- Bytes that are read stand at the start of the array.
unfoldable pub load : List ℕ → Direction → Direction
load read d = record d {
  buffer = record { bytes = read ++ drop (length read) d.buffer.bytes; off = 0; len = length read };
  taken = d.taken ++ read;
}

-- stream_read into an empty buffer.
unfoldable pub read_some : Read → Direction → Move
unfolding cut_read load
read_some (got x xs) d = moved (load (cut_read x xs) d)
read_some ended d = broken (record d { is_open = false })
read_some read_later d = still d
read_some read_broken d = broken d

unfoldable pub read_in : Read → Direction → Move
unfolding buffer_empty read_some
read_in r d = if d.is_open && buffer_empty d.buffer then read_some r d else still d

-- Each of the four calls of a round goes to one direction; `false` is a loop that is broken.
unfoldable pub on_c2u : Move → Relay → Bool × Relay
on_c2u (moved d) s = (true, record s { c2u = d; progress = true })
on_c2u (still d) s = (true, record s { c2u = d })
on_c2u (broken d) s = (false, record s { c2u = d })

unfoldable pub on_u2c : Move → Relay → Bool × Relay
on_u2c (moved d) s = (true, record s { u2c = d; progress = true })
on_u2c (still d) s = (true, record s { u2c = d })
on_u2c (broken d) s = (false, record s { u2c = d })

-- The next call, unless the loop is broken.
unfoldable pub next : (Relay → Bool × Relay) → Bool × Relay → Bool × Relay
next call (true, s) = call s
next call (false, s) = (false, s)

-- The wait at the end of a round without progress.
unfoldable pub wait : Bool → Relay → Bool × Relay
wait wait_fails s = (s.progress || not wait_fails, s)

-- The four calls, in the order of the round.
unfoldable pub send_up : Round → Relay → Bool × Relay
unfolding on_c2u write_out
send_up w s = on_c2u (write_out w.to_upstream s.c2u) s

unfoldable pub send_down : Round → Relay → Bool × Relay
unfolding on_u2c write_out
send_down w s = on_u2c (write_out w.to_client s.u2c) s

unfoldable pub take_up : Round → Relay → Bool × Relay
unfolding on_c2u read_in
take_up w s = on_c2u (read_in w.from_client s.c2u) s

unfoldable pub take_down : Round → Relay → Bool × Relay
unfolding on_u2c read_in
take_down w s = on_u2c (read_in w.from_upstream s.u2c) s

-- One turn of the loop of proxy_loop.
unfoldable pub round : Round → Relay → Bool × Relay
unfolding next send_up send_down take_up take_down wait
round w s =
    let sent = next (send_down w) (send_up w (record s { progress = false })) in
    next (wait w.wait_fails) (next (take_down w) (next (take_up w) sent))

-- A direction as proxy_loop begins it; `bytes` is what the array held before.
abbrev pub new_direction : List ℕ → Direction
new_direction bytes = record {
  buffer = record { bytes = bytes; off = 0; len = 0 };
  taken = [];
  given = [];
  is_open = true;
}

unfoldable pub relay_init : List ℕ → List ℕ → Relay
relay_init up down = record { c2u = new_direction up; u2c = new_direction down; progress = false }

-- proxy_loop on the rounds that it meets, as far as it goes; `true` is a loop that still runs.
pub proxy_loop : List Round → Relay → Bool × Relay
unfolding next round
proxy_loop [] s = (true, s)
proxy_loop (w ∷ ws) s = next (proxy_loop ws) (round w s)
