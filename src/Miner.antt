-- ===== src/Miner.antt =====
-- The work distribution of miner.c: `struct miner` and what each section under `miner->lock` does
-- to it. `M` is the type of a midstate, `D` that of a `double`. A flag that is 0 or 1 is a `Bool`.
-- The arrays of GPU devices say of each slot whether its pointer is not NULL.
pub mod Workers
pub mod Control
pub mod Counters
pub mod Config
pub mod Start
pub mod History
use btcrig.Base.{
  ℕ, zero, suc, ◌+◌, ◌-◌, ◌*◌, ◌/◌, ◌%◌, ◌^◌, ◌≤◌, ◌<◌, min, max, bit_and, bit_or, bit_xor, ◌≡◌,
  refl, sym, ap, ap₂, ◌∙◌, subst, ◌≢◌, ◌↔◌, ◌⊎◌, inl, inr, Bool, true, false, not, ◌&&◌, ◌||◌,
  Option, none, some, List, [], ◌∷◌, ◌++◌, map, arith, ltb, leb, ◌==◌, if◌then◌else◌, ltb→lt,
  lt→ltb, leb→le, ==_iff, tests, Bool-cases, Option-cases, length, get_or, set, take, drop,
  replicate, All, length-append, length-set, length-take, length-drop, length-replicate,
  take-append-drop, take_append, drop_append, get_or-set_self, get_or-set_ne, get_or-take,
  get_or_ext, All-append, All-take, All-drop, All-get_or, length-map,
}
use btcrig.ShareQueue.{ShareQueue}

-- `miner_job_t`
pub record PublicJob : Type 0 where
  pub seq : ℕ
  pub job_id : List ℕ
  pub extranonce2 : List ℕ
  pub ntime : List ℕ
  pub header : List ℕ
  pub target : List ℕ

-- `active_job_t`
pub record ActiveJob (M : Type 0) : Type 0 where
  pub public_job : PublicJob
  pub midstate : M
  pub tail_words : List ℕ
  pub target_words : List ℕ
  pub pause_epoch : ℕ
  pub valid : Bool

-- `miner_share_t`
pub record Share (D : Type 0) : Type 0 where
  pub seq : ℕ
  pub nonce : ℕ
  pub difficulty : D
  pub hash : List ℕ
  pub job_id : List ℕ
  pub extranonce2 : List ℕ
  pub ntime : List ℕ

-- `struct miner`, without the thread handles and the device configurations.
pub record Miner (M D : Type 0) : Type 0 where
  pub thread_count : ℕ
  pub opencl_devices : List Bool
  pub opencl_hashes : List ℕ
  pub cuda_device : Bool
  pub cuda_hashes : ℕ
  pub started : Bool
  pub opencl_started : ℕ
  pub cuda_started : ℕ
  pub stop : Bool
  pub paused : Bool
  pub pause_epoch : ℕ
  pub job : ActiveJob M
  pub next_nonce : ℕ
  pub nonce_exhausted : Bool
  pub hashes : ℕ
  pub thread_hashes : List ℕ
  pub queue : ShareQueue (Share D)

-- MINER_BATCH_SIZE and MINER_MIXED_CPU_BATCH_SIZE
abbrev pub batch_size : ℕ
batch_size = 262144

abbrev pub mixed_cpu_batch_size : ℕ
mixed_cpu_batch_size = 65536
