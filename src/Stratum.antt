-- ===== src/Stratum.antt =====
-- The session state of stratum.c and stratum.h: what the handlers keep of a connection to a pool.
-- `D` is the type of a `double`, a string is the list of its bytes. The arrays that hold the strings
-- have the sizes written where they are filled. Counters of type `unsigned long` are taken to have
-- 64 bits.
pub mod Json
pub mod Pending
pub mod Session
pub mod Handlers
pub mod Lines
pub mod Client
pub mod Connection
use btcrig.Base.{
  ℕ, zero, suc, ◌+◌, ◌-◌, ◌*◌, ◌/◌, ◌%◌, ◌^◌, ◌≤◌, ◌<◌, min, max, bit_and, bit_or, bit_xor, ◌≡◌,
  refl, sym, ap, ap₂, ◌∙◌, subst, ◌≢◌, ◌↔◌, ◌⊎◌, inl, inr, Bool, true, false, not, ◌&&◌, ◌||◌,
  Option, none, some, List, [], ◌∷◌, ◌++◌, map, arith, ltb, leb, ◌==◌, if◌then◌else◌, ltb→lt,
  lt→ltb, leb→le, ==_iff, tests, Bool-cases, Option-cases, length, get_or, set, take, drop,
  replicate, All, length-append, length-set, length-take, length-drop, length-replicate,
  take-append-drop, take_append, drop_append, get_or-set_self, get_or-set_ne, get_or-take,
  get_or_ext, All-append, All-take, All-drop, All-get_or, length-map, ◌>>=◌,
}
use btcrig.Job.{Doubles}

-- `stratum_pending_share_t`
pub record PendingShare (D : Type 0) : Type 0 where
  pub id : ℕ
  pub active : Bool
  pub difficulty : D
  pub submitted_at : D

-- STRATUM_PENDING_SHARES, STRATUM_MAX_MERKLE_BRANCHES and STRATUM_MAX_COINBASE_HEX
abbrev pub pending_shares : ℕ
pending_shares = 64

abbrev pub max_merkle_branches : ℕ
max_merkle_branches = 128

abbrev pub max_coinbase_hex : ℕ
max_coinbase_hex = 16384
