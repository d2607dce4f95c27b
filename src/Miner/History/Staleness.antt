-- ===== src/Miner/History/Staleness.antt =====
-- A result of a job that was copied before a pause or before a newer job changes nothing.

use btcrig.Base.{
  ℕ, ◌+◌, ◌^◌, ◌≤◌, ◌<◌, ◌≡◌, refl, ap, ◌≢◌, ◌⊎◌, inl, inr, true, false, List, [], ◌∷◌, arith,
  length,
}
use btcrig.Word.{u32, u64}
use btcrig.Miner.{ActiveJob, Miner}
use btcrig.Miner.Workers.{still_current, take_range, report, finish_cpu, finish_opencl, finish_cuda}
use btcrig.Miner.Control.{install_job, set_paused}
use btcrig.Miner.History.{
  Call, Traced, takes, reports, finishes_cpu, finishes_opencl, finishes_cuda, installs, pauses,
  takes_exhausted, pops, stops, stopped, starts, step, run,
}
use btcrig.Miner.History.Kept.{
  SameWork, report-SameWork, finish_cpu-SameWork, finish_opencl-SameWork, finish_cuda-SameWork,
  set_paused-SameWork, take_nonce_exhausted-SameWork, pop_share-SameWork, request_stop-SameWork,
  finish_stop-SameWork, start-SameWork,
}

-- A counter that stands or goes on by one.
abbrev Ticks : ℕ → ℕ → Type 0
Ticks n n' = (n' ≡ n) ⊎ (n' ≡ u64 (n + 1))

module _ {M D : Type 0} where
  abbrev epoch : Traced M D → ℕ
  epoch t = t.miner.pause_epoch

  abbrev seq : Traced M D → ℕ
  seq t = t.miner.job.public_job.seq

  of_SameWork :
      (t : Traced M D) (m : Miner M D)
      → SameWork t.miner m
      → Ticks (epoch t) m.pause_epoch × Ticks (seq t) m.job.public_job.seq
  of_SameWork t m same = (same.epoch, inl (ap (λ j. j.seq) same.same_job))

  take-Ticks :
      (m : Miner M D) (size : ℕ)
      → ((take_range m size).1.pause_epoch ≡ m.pause_epoch)
        × ((take_range m size).1.job.public_job.seq ≡ m.job.public_job.seq)
  unfolding take_range
  take-Ticks m size = ground arith

  -- Every section lets both counters stand, or moves one on by one.
  step-Ticks :
      (hash_difficulty : List ℕ → D) (t : Traced M D) (c : Call M)
      → Ticks (epoch t) (epoch (step hash_difficulty t c))
        × Ticks (seq t) (seq (step hash_difficulty t c))
  unfolding step
  step-Ticks hd t (takes size) = let (e, s) = take-Ticks t.miner (u32 size) in (inl e, inl s)
  step-Ticks hd t (reports job nonce ws) = of_SameWork t _ (report-SameWork hd t.miner job nonce ws)
  step-Ticks hd t (finishes_cpu job id n) = of_SameWork t _ (finish_cpu-SameWork t.miner job id n)
  step-Ticks hd t (finishes_opencl job id n) =
      of_SameWork t _ (finish_opencl-SameWork t.miner job id n)
  step-Ticks hd t (finishes_cuda job n) = of_SameWork t _ (finish_cuda-SameWork t.miner job n)
  step-Ticks hd t (installs active) =
      (inl (unfold install_job in refl), inr (unfold install_job in refl))
  step-Ticks hd t (pauses paused) = of_SameWork t _ (set_paused-SameWork t.miner paused)
  step-Ticks hd t takes_exhausted = of_SameWork t _ (take_nonce_exhausted-SameWork t.miner)
  step-Ticks hd t pops = of_SameWork t _ (pop_share-SameWork t.miner)
  step-Ticks hd t stops = of_SameWork t _ (request_stop-SameWork t.miner)
  step-Ticks hd t stopped = of_SameWork t _ (finish_stop-SameWork t.miner)
  step-Ticks hd t (starts x) = of_SameWork t _ (start-SameWork t.miner x)

  -- Short of 2 ^ 64 sections no counter comes round.
  run-epoch_le :
      (hash_difficulty : List ℕ → D) (t : Traced M D) (cs : List (Call M))
      → epoch t + length cs < 2 ^ 64
      → epoch t ≤ epoch (run hash_difficulty t cs)
  unfolding run
  run-epoch_le hd t [] h = omega arith
  run-epoch_le hd t (c ∷ cs) h = omega (
    arith,
    step-Ticks hd t c,
    run-epoch_le hd (step hd t c) cs (omega (arith, step-Ticks hd t c)),
  )

  run-seq_le :
      (hash_difficulty : List ℕ → D) (t : Traced M D) (cs : List (Call M))
      → seq t + length cs < 2 ^ 64
      → seq t ≤ seq (run hash_difficulty t cs)
  unfolding run
  run-seq_le hd t [] h = omega arith
  run-seq_le hd t (c ∷ cs) h =
      omega (
        arith,
        step-Ticks hd t c,
        run-seq_le hd (step hd t c) cs (omega (arith, step-Ticks hd t c)),
      )

  -- No section that reports on the job changes the miner.
  abbrev pub Ignores : (List ℕ → D) → Miner M D → ActiveJob M → Type 0
  Ignores hash_difficulty m job =
      ((nonce : ℕ) (ws : List ℕ) → report hash_difficulty m job nonce ws ≡ m)
      × ((id n : ℕ) → finish_cpu m job id n ≡ m)
      × ((id n : ℕ) → finish_opencl m job id n ≡ m)
      × ((n : ℕ) → finish_cuda m job n ≡ m)

  stale-Ignores :
      (hash_difficulty : List ℕ → D) (m : Miner M D) (job : ActiveJob M)
      → still_current m job ≡ false
      → Ignores hash_difficulty m job
  unfolding report finish_cpu finish_opencl finish_cuda
  stale-Ignores hd m job e =
      (λ nonce ws. rw e refl, λ id n. rw e refl, λ id n. rw e refl, λ n. rw e refl)

  old_epoch :
      (m : Miner M D) (job : ActiveJob M)
      → m.pause_epoch ≢ job.pause_epoch
      → still_current m job ≡ false
  unfolding still_current
  old_epoch m job h = ground arith

  old_seq :
      (m : Miner M D) (job : ActiveJob M)
      → m.job.public_job.seq ≢ job.public_job.seq
      → still_current m job ≡ false
  unfolding still_current
  old_seq m job h = ground arith

  paused_epoch :
      (hash_difficulty : List ℕ → D) (t : Traced M D)
      → t.miner.paused ≡ false
      → epoch t + 1 < 2 ^ 64
      → epoch (step hash_difficulty t (pauses true)) ≡ epoch t + 1
  unfolding step set_paused
  paused_epoch hd t running short = ground arith

  installed_seq :
      (hash_difficulty : List ℕ → D) (t : Traced M D) (active : ActiveJob M)
      → seq t + 1 < 2 ^ 64
      → seq (step hash_difficulty t (installs active)) ≡ seq t + 1
  unfolding step install_job
  installed_seq hd t active short = omega arith

-- A job copied by a worker before a running miner is paused is ignored from then on: after the pause
-- and any further sections, fewer than would let the 64-bit epoch come round, no report and no count
-- of it changes the miner, whether or not the miner has been resumed.
pub pause-Ignores :
    {M D : Type 0} (hash_difficulty : List ℕ → D) (t : Traced M D) (job : ActiveJob M)
    (cs : List (Call M))
    → t.miner.paused ≡ false
    → job.pause_epoch ≡ t.miner.pause_epoch
    → t.miner.pause_epoch + 1 + length cs < 2 ^ 64
    → Ignores hash_difficulty
        (run hash_difficulty (step hash_difficulty t (pauses true)) cs).miner
        job
pause-Ignores hd t job cs running copied short =
    let next : epoch (step hd t (pauses true)) ≡ epoch t + 1 =
      paused_epoch hd t running (omega arith) in
    let later = run-epoch_le hd (step hd t (pauses true)) cs (omega arith) in
    stale-Ignores hd _ job (old_epoch _ job (omega arith))

-- The same of a job that a newer one has replaced, short of 2 ^ 64 further sections.
pub install-Ignores :
    {M D : Type 0} (hash_difficulty : List ℕ → D) (t : Traced M D) (job active : ActiveJob M)
    (cs : List (Call M))
    → job.public_job.seq ≡ t.miner.job.public_job.seq
    → t.miner.job.public_job.seq + 1 + length cs < 2 ^ 64
    → Ignores hash_difficulty
        (run hash_difficulty (step hash_difficulty t (installs active)) cs).miner
        job
install-Ignores hd t job active cs copied short =
    let next : seq (step hd t (installs active)) ≡ seq t + 1 =
      installed_seq hd t active (omega arith) in
    let later = run-seq_le hd (step hd t (installs active)) cs (omega arith) in
    stale-Ignores hd _ job (old_seq _ job (omega arith))
