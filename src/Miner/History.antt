-- ===== src/Miner/History.antt =====
-- The miner's life as a sequence of the sections that run under its lock, and of starts and ends, in
-- any order and from any threads, beside the ranges that the current job has handed out, the newest
-- first.
mod Kept
pub mod Coverage
pub mod Freshness
pub mod Staleness
use btcrig.Base.{
  ℕ, zero, suc, ◌+◌, ◌-◌, ◌*◌, ◌/◌, ◌%◌, ◌^◌, ◌≤◌, ◌<◌, min, max, bit_and, bit_or, bit_xor, ◌≡◌,
  refl, sym, ap, ap₂, ◌∙◌, subst, ◌≢◌, ◌↔◌, ◌⊎◌, inl, inr, Bool, true, false, not, ◌&&◌, ◌||◌,
  Option, none, some, List, [], ◌∷◌, ◌++◌, map, arith, ltb, leb, ◌==◌, if◌then◌else◌, ltb→lt,
  lt→ltb, leb→le, ==_iff, tests, Bool-cases, Option-cases, length, get_or, set, take, drop,
  replicate, All, length-append, length-set, length-take, length-drop, length-replicate,
  take-append-drop, take_append, drop_append, get_or-set_self, get_or-set_ne, get_or-take,
  get_or_ext, All-append, All-take, All-drop, All-get_or, length-map,
}
use btcrig.Word.{u32}
use btcrig.Miner.{ActiveJob, Miner}
use btcrig.Miner.Start.{Starting, start}
use btcrig.Miner.Workers.{Range, take_range, report, finish_cpu, finish_opencl, finish_cuda}
use btcrig.Miner.Control.{
  install_job, set_paused, take_nonce_exhausted, pop_share, request_stop, finish_stop,
}

-- One section, with what its thread brings along; a batch size is a `uint32_t`.
pub data Call (M : Type 0) : Type 0 where
  takes : ℕ → Call M
  reports : ActiveJob M → ℕ → List ℕ → Call M
  finishes_cpu finishes_opencl : ActiveJob M → ℕ → ℕ → Call M
  finishes_cuda : ActiveJob M → ℕ → Call M
  installs : ActiveJob M → Call M
  pauses : Bool → Call M
  takes_exhausted pops stops stopped : Call M
  starts : Starting → Call M

pub record Traced (M D : Type 0) : Type 0 where
  pub miner : Miner M D
  pub handed_out : List (Range M)

-- A range taken is noted; a new job starts a new list.
unfoldable pub noted : {M : Type 0} → List (Range M) → Option (Range M) → List (Range M)
noted log none = log
noted log (some r) = r ∷ log

module _ {M D : Type 0} where
  unfoldable pub step : (List ℕ → D) → Traced M D → Call M → Traced M D
  unfolding noted
  step hash_difficulty t (takes size) =
      let (taken, m) = take_range t.miner (u32 size) in
      record { miner = m; handed_out = noted t.handed_out taken }
  step hash_difficulty t (reports job nonce words) = record t {
    miner = report hash_difficulty t.miner job nonce words;
  }
  step hash_difficulty t (finishes_cpu job id count) = record t {
    miner = finish_cpu t.miner job id count;
  }
  step hash_difficulty t (finishes_opencl job id count) = record t {
    miner = finish_opencl t.miner job id count;
  }
  step hash_difficulty t (finishes_cuda job count) = record t {
    miner = finish_cuda t.miner job count;
  }
  step hash_difficulty t (installs active) = record {
    miner = install_job t.miner active;
    handed_out = [];
  }
  step hash_difficulty t (pauses paused) = record t { miner = set_paused t.miner paused }
  step hash_difficulty t takes_exhausted = record t { miner = (take_nonce_exhausted t.miner).1 }
  step hash_difficulty t pops = record t { miner = (pop_share t.miner).2 }
  step hash_difficulty t stops = record t { miner = request_stop t.miner }
  step hash_difficulty t stopped = record t { miner = finish_stop t.miner }
  step hash_difficulty t (starts x) = record t { miner = (start x t.miner).1 }

  unfoldable pub run : (List ℕ → D) → Traced M D → List (Call M) → Traced M D
  unfolding step
  run hash_difficulty t [] = t
  run hash_difficulty t (c ∷ cs) = run hash_difficulty (step hash_difficulty t c) cs
