-- ===== src/Stratum/Connection.antt =====
-- The connection of stratum.c: conn_open with conn_open_once, and conn_write. What connect_tcp, OpenSSL
-- and send report is data.
pub mod Modes
pub mod Sending
use btcrig.Base.{
  ℕ, zero, suc, ◌+◌, ◌-◌, ◌*◌, ◌/◌, ◌%◌, ◌^◌, ◌≤◌, ◌<◌, min, max, bit_and, bit_or, bit_xor, ◌≡◌,
  refl, sym, ap, ap₂, ◌∙◌, subst, ◌≢◌, ◌↔◌, ◌⊎◌, inl, inr, Bool, true, false, not, ◌&&◌, ◌||◌,
  Option, none, some, List, [], ◌∷◌, ◌++◌, map, arith, ltb, leb, ◌==◌, if◌then◌else◌, ltb→lt,
  lt→ltb, leb→le, ==_iff, tests, Bool-cases, Option-cases, length, get_or, set, take, drop,
  replicate, All, length-append, length-set, length-take, length-drop, length-replicate,
  take-append-drop, take_append, drop_append, get_or-set_self, get_or-set_ne, get_or-take,
  get_or_ext, All-append, All-take, All-drop, All-get_or, length-map, ◌>>=◌, take_whole,
  take-append, range_from, range_from-suc,
}
use btcrig.Url.{PoolEndpoint}

-- What one call of conn_open_once meets: whether connect_tcp, SSL_CTX_new with SSL_new, and SSL_connect
-- succeed.
pub record Attempt : Type 0 where
  pub tcp_works : Bool
  pub tls_there : Bool
  pub handshake_works : Bool

-- The connection that is open: with TLS or without, and whether the certificate was verified.
pub record Connection : Type 0 where
  pub use_tls : Bool
  pub verified : Bool

-- The connection, and tls_handshake_failed.
unfoldable pub conn_open_once : Bool → Bool → Attempt → Option Connection × Bool
conn_open_once use_tls verify_tls a =
    if not a.tcp_works
    then (none, false)
    else if not use_tls
    then (some (record { use_tls = false; verified = false }), false)
    else if not a.tls_there
    then (none, false)
    else if not a.handshake_works
    then (none, true)
    else (some (record { use_tls = true; verified = verify_tls }), false)

-- The three attempts of conn_open: as the address says, without verification, without TLS.
pub record Attempts : Type 0 where
  pub asked : Attempt
  pub compatible : Attempt
  pub plain : Attempt

-- The last attempt, for an address with TLS.
unfoldable pub open_plain : PoolEndpoint → Attempts → Option Connection
unfolding conn_open_once
open_plain endpoint a = if endpoint.use_tls then (conn_open_once false false a.plain).0 else none

-- The attempts after the first one.
unfoldable pub open_again : PoolEndpoint → Attempts → Bool → Option Connection
unfolding open_plain conn_open_once
open_again endpoint a handshake_failed =
    if endpoint.use_tls && endpoint.verify_tls && handshake_failed
    then elim (conn_open_once endpoint.use_tls false a.compatible).0 [
      | some c ↦ some c
      | none ↦ open_plain endpoint a
    ]
    else open_plain endpoint a

unfoldable pub conn_open : PoolEndpoint → Attempts → Option Connection
unfolding open_again conn_open_once
conn_open endpoint a =
    let first = conn_open_once endpoint.use_tls endpoint.verify_tls a.asked in
    elim first.0 [ some c ↦ some c | none ↦ open_again endpoint a first.1 ]

-- What send or SSL_write reports: up to `n` bytes and one more, an interruption or a wait, a failure.
pub data Sent : Type 0 where
  took : ℕ → Sent
  try_again : Sent
  send_failed : Sent

-- conn_write: its result, and the bytes that were sent; none is a call that still waits.
unfoldable pub conn_write : List ℕ → List Sent → Option (Bool × List ℕ)
conn_write [] es = some (true, [])
conn_write (x ∷ xs) [] = none
conn_write (x ∷ xs) (send_failed ∷ es) = some (false, [])
conn_write (x ∷ xs) (try_again ∷ es) = conn_write (x ∷ xs) es
conn_write (x ∷ xs) (took n ∷ es) = elim (conn_write (drop n xs) es) [
  | none ↦ none
  | some r ↦ some (r.0, x ∷ take n xs ++ r.1)
]
