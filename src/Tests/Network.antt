-- ===== src/Tests/Network.antt =====
-- Instances of the theorems on addresses, lines, the relay and the loop of sessions.
use btcrig.Base.{
  ℕ, suc, ◌-◌, ◌*◌, ◌^◌, min, max, ◌≡◌, refl, ap, ◌≢◌, true, false, none, some, List, [], ◌∷◌, ◌++◌,
  map, arith, length, replicate, length-replicate,
}
use btcrig.CString.{codes}
use btcrig.Url.{PoolEndpoint, parse_pool_url}
use btcrig.Stratum.Connection.{Attempt, conn_open, took, send_failed, conn_write}
use btcrig.Stratum.Connection.Modes.{conn_open-downgrades}
use btcrig.Stratum.Connection.Sending.{conn_write-Delivered, conn_write_ends}
use btcrig.Url.Printed.{verified, IsAddress, parse_pool_url-address}
use btcrig.Stratum.Lines.{Reader, split_line, strip_return, Event, read_bytes, got_line, read_line}
use btcrig.Stratum.Lines.Framing.{Framed, unread, read_line-Framed}
use btcrig.Stratum.Lines.Arrival.{read_line-arrival}
use btcrig.Relay.{data_size, read_later, wrote, Relay, Round, proxy_loop, pending}
use btcrig.Relay.Faithful.{FaithfulRelay, proxy_loop-Faithful}
use btcrig.Relay.Delivers.{Flowing, proxy_loop-Delivers}
use btcrig.Reconnect.{
  max_reconnect_delay, retry_delay_seconds, Settings, Run, unlimited, Turn, PoolSession, run,
  run_init,
}
use btcrig.Reconnect.Delay.{retry_delay_seconds_lem}
use btcrig.Reconnect.Retries.{session_at, run-rotates}
use btcrig.Reconnect.Ends.{Steady, rc_at, run-ends}
use btcrig.Reconnect.Donation.{Earned, Timed, run-donation}

local-IsAddress : IsAddress (codes "pool") (codes "33")
local-IsAddress = record {
  host_size = omega arith;
  host_some = omega arith;
  port_size = omega arith;
  port_some = omega arith;
  host_slash = (refl, (refl, (refl, (refl, tt))));
  port_slash = (refl, (refl, tt));
  port_colon = (refl, (refl, tt));
}

parse_pool_url-address_example :
    parse_pool_url (codes "tls://pool:33/x")
    ≡ some (record { host = codes "pool"; port = codes "33"; use_tls = true; verify_tls = true })
parse_pool_url-address_example =
    parse_pool_url-address verified false false (codes "pool") (codes "33") (some (codes "x"))
      local-IsAddress

-- An address with verified TLS, at which every handshake fails.
abbrev tls_pool : PoolEndpoint
tls_pool = record { host = codes "pool"; port = codes "33"; use_tls = true; verify_tls = true }

abbrev no_handshake : Attempt
no_handshake = record { tcp_works = true; tls_there = true; handshake_works = false }

conn_open-downgrades_example :
    conn_open tls_pool
      (record { asked = no_handshake; compatible = no_handshake; plain = no_handshake })
    ≡ some (record { use_tls = false; verified = false })
conn_open-downgrades_example =
    conn_open-downgrades tls_pool
      (record { asked = no_handshake; compatible = no_handshake; plain = no_handshake }) refl refl
      refl refl

-- A send of two bytes, and one that fails.
sent_two : conn_write (1 ∷ 2 ∷ 3 ∷ []) (took 1 ∷ send_failed ∷ []) ≡ some (false, 1 ∷ 2 ∷ [])
unfolding conn_write
sent_two = refl

conn_write-Delivered_example : (rest : List ℕ) × ((1 ∷ 2 ∷ []) ++ rest ≡ 1 ∷ 2 ∷ 3 ∷ [])
conn_write-Delivered_example =
    conn_write-Delivered (1 ∷ 2 ∷ 3 ∷ []) (took 1 ∷ send_failed ∷ []) (false, 1 ∷ 2 ∷ []) sent_two

conn_write_ends_example :
    conn_write (1 ∷ 2 ∷ 3 ∷ []) (map took (0 ∷ 0 ∷ 0 ∷ [])) ≡ some (true, 1 ∷ 2 ∷ 3 ∷ [])
conn_write_ends_example = conn_write_ends (1 ∷ 2 ∷ 3 ∷ []) (0 ∷ 0 ∷ 0 ∷ []) (omega arith)

-- A line that comes in two pieces.
abbrev two_pieces : Reader
two_pieces = record { buffer = b'a' ∷ []; incoming = b'b' ∷ b'\r' ∷ b'\n' ∷ b'c' ∷ [] }

first_line :
    read_line (read_bytes 1 ∷ read_bytes 9 ∷ []) two_pieces
    ≡ some (got_line (b'a' ∷ b'b' ∷ []), record { buffer = b'c' ∷ []; incoming = [] }, [])
unfolding read_line
first_line = refl

read_line-Framed_example : Framed (got_line (b'a' ∷ b'b' ∷ [])) (unread two_pieces) (b'c' ∷ [])
read_line-Framed_example =
    read_line-Framed (read_bytes 1 ∷ read_bytes 9 ∷ []) two_pieces (got_line (b'a' ∷ b'b' ∷ []))
      (record { buffer = b'c' ∷ []; incoming = [] }) [] first_line

read_line-arrival_example :
    (after : Reader) × (left : List Event) × (read_line
        (read_bytes 1 ∷ read_bytes 1 ∷ read_bytes 1 ∷ read_bytes 1 ∷ [])
        two_pieces
      ≡ some (got_line (b'a' ∷ b'b' ∷ []), after, left))
unfolding split_line strip_return
read_line-arrival_example =
    read_line-arrival (1 ∷ 1 ∷ 1 ∷ 1 ∷ []) two_pieces (b'a' ∷ b'b' ∷ b'\r' ∷ []) (b'c' ∷ []) refl
      (omega arith) (omega arith) (omega arith)

-- A round in which the upstream takes a byte, and the client sends none.
abbrev one_byte : Round
one_byte = record {
  to_upstream = wrote 0;
  to_client = wrote 0;
  from_client = read_later;
  from_upstream = read_later;
  wait_fails = false;
}

-- Two bytes wait for the upstream.
abbrev two_wait : List ℕ → Relay
two_wait rest = record {
  c2u = record {
    buffer = record { bytes = 5 ∷ 6 ∷ rest; off = 0; len = 2 };
    taken = 5 ∷ 6 ∷ [];
    given = [];
    is_open = true;
  };
  u2c = record {
    buffer = record { bytes = 5 ∷ 6 ∷ rest; off = 0; len = 0 };
    taken = [];
    given = [];
    is_open = true;
  };
  progress = false;
}

abbrev zeros : List ℕ
zeros = replicate 32766 0

two_wait-Faithful : FaithfulRelay (two_wait zeros)
unfolding pending
two_wait-Faithful =
    let size : length (5 ∷ 6 ∷ zeros) ≡ data_size =
      ap (λ n. suc (suc n)) (length-replicate {A = ℕ} 32766 0) in
    (
      record { within = omega arith; fits = omega arith; array = size; in_order = refl },
      record { within = omega arith; fits = omega arith; array = size; in_order = refl },
    )

proxy_loop-Faithful_example : FaithfulRelay (proxy_loop (one_byte ∷ []) (two_wait zeros)).1
proxy_loop-Faithful_example = proxy_loop-Faithful (one_byte ∷ []) (two_wait zeros) two_wait-Faithful

one_byte-Flowing : Flowing one_byte
one_byte-Flowing = record {
  size = 0;
  sends = refl;
  quiet = refl;
  answers = λ e. cc;
  upstream_open = λ e. cc;
  upstream_whole = λ e. cc;
  wait_ends = refl;
}

proxy_loop-Delivers_example :
    ((proxy_loop (one_byte ∷ one_byte ∷ []) (two_wait zeros)).0 ≡ true)
    × ((proxy_loop (one_byte ∷ one_byte ∷ []) (two_wait zeros)).1.c2u.given ≡ 5 ∷ 6 ∷ [])
proxy_loop-Delivers_example =
    proxy_loop-Delivers (one_byte ∷ one_byte ∷ []) (two_wait zeros)
      (one_byte-Flowing, (one_byte-Flowing, tt)) two_wait-Faithful.0 (omega arith)

retry_delay_seconds_lem_example :
    retry_delay_seconds 2 4 ≡ min max_reconnect_delay (max 1 2 * 2 ^ (4 - 1))
retry_delay_seconds_lem_example = retry_delay_seconds_lem 2 4

-- Three pools and one retry, with a session that fails twice.
abbrev three_pools : Settings
three_pools = record {
  pool_count = 3;
  retries = some 1;
  reconnect_delay = 2;
  mining_enabled = true;
  donate_level = 0;
}

abbrev fails : Turn
fails = record { over_before = false; rc = 1; over_after = false; remaining = none }

abbrev at_pool_2 : Run
at_pool_2 = record {
  last_rc = 0;
  pool_index = 2;
  donating = false;
  phase_seconds = unlimited;
  attempt = 0;
}

fails-Steady : Steady fails
fails-Steady = record {
  fails = λ e. omega arith;
  goes_on = refl;
  still_on = refl;
  unlimited_time = refl;
}

-- A session that fails with another result
abbrev fails_again : Turn
fails_again = record fails { rc = 2 }

fails_again-Steady : Steady fails_again
fails_again-Steady = record {
  fails = λ e. omega arith;
  goes_on = refl;
  still_on = refl;
  unlimited_time = refl;
}

two_sessions : length (run three_pools (fails ∷ fails_again ∷ []) at_pool_2).0 ≡ 2
two_sessions =
    (run-ends three_pools (fails ∷ fails_again ∷ []) at_pool_2 1 refl (omega arith) (omega arith)
      refl (omega arith) (fails-Steady, (fails_again-Steady, tt)) (omega arith)).0

run-ends_example :
    (length (run three_pools (fails ∷ fails_again ∷ []) at_pool_2).0 ≡ 2)
    × ((run three_pools (fails ∷ fails_again ∷ []) at_pool_2).1 ≡ some 2)
    × (rc_at (fails ∷ fails_again ∷ []) 1 ≢ 0)
run-ends_example =
    run-ends three_pools (fails ∷ fails_again ∷ []) at_pool_2 1 refl (omega arith) (omega arith)
      refl (omega arith) (fails-Steady, (fails_again-Steady, tt)) (omega arith)

-- The second session is on the first pool.
run-rotates_example :
    ((session_at (run three_pools (fails ∷ fails_again ∷ []) at_pool_2).0 1).pool ≡ 0)
    × ((session_at (run three_pools (fails ∷ fails_again ∷ []) at_pool_2).0 1).donated ≡ false)
run-rotates_example =
    run-rotates three_pools (fails ∷ fails_again ∷ []) at_pool_2 1
      ((λ e. omega arith), ((λ e. omega arith), tt)) refl (omega arith)
      (omega (arith, two_sessions))

-- Two percent for the donation, and two sessions that run their phases.
abbrev donates : Settings
donates = record three_pools { donate_level = 2 }

abbrev works : Turn
works = record fails { rc = 0 }

abbrev no_session : PoolSession
no_session = record { pool = 0; donated = false; phase = unlimited; result = 1 }

run-donation_example :
    Earned no_session (run donates (works ∷ works ∷ []) (run_init donates)).0
    × Timed donates false (run donates (works ∷ works ∷ []) (run_init donates)).0
run-donation_example = run-donation donates (works ∷ works ∷ []) no_session
