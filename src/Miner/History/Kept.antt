-- ===== src/Miner/History/Kept.antt =====
-- The sections that leave the work of the current job as it is.
use btcrig.Base.{
  ap, sym, ◌∙◌, ℕ, ◌+◌, ◌≡◌, ◌⊎◌, refl, List, Bool, true, not, ◌&&◌, ltb, Bool-cases, inl, inr,
}
use btcrig.Word.{u64}
use btcrig.Miner.{ActiveJob, Miner}
use btcrig.Miner.Workers.{still_current, report, finish_cpu, finish_opencl, finish_cuda}
use btcrig.Miner.Start.{Starting, start}
use btcrig.Miner.Start.Untouched.{start-Untouched}
use btcrig.Miner.Control.{set_paused, take_nonce_exhausted, pop_share, request_stop, finish_stop}

module _ {M D : Type 0} where
  -- The next nonce and the job stand, the exhausted flag is not raised, and the pause epoch stands
  -- or is the next one.
  pub record SameWork (m m' : Miner M D) : Type 0 where
    pub same_next : m'.next_nonce ≡ m.next_nonce
    pub same_job : m'.job.public_job ≡ m.job.public_job
    pub flag : m'.nonce_exhausted ≡ true → m.nonce_exhausted ≡ true
    pub epoch : (m'.pause_epoch ≡ m.pause_epoch) ⊎ (m'.pause_epoch ≡ u64 (m.pause_epoch + 1))

  SameWork-refl : (m : Miner M D) → SameWork m m
  SameWork-refl m = record { same_next = refl; same_job = refl; flag = λ e. e; epoch = inl refl }

  pub report-SameWork :
      (hash_difficulty : List ℕ → D) (m : Miner M D) (job : ActiveJob M) (nonce : ℕ) (ws : List ℕ)
      → SameWork m (report hash_difficulty m job nonce ws)
  unfolding report
  report-SameWork hash_difficulty m job nonce ws = elim (Bool-cases (still_current m job)) [
    | inl e ↦ rw e (record { same_next = refl; same_job = refl; flag = λ f. f; epoch = inl refl })
    | inr e ↦ rw e (SameWork-refl m)
  ]

  pub finish_cpu-SameWork :
      (m : Miner M D) (job : ActiveJob M) (id count : ℕ) → SameWork m (finish_cpu m job id count)
  unfolding finish_cpu
  finish_cpu-SameWork m job id count = elim (Bool-cases (still_current m job)) [
    | inl e ↦ elim (Bool-cases (ltb id m.thread_count)) [
      | inl f ↦
          rw (e, f) (record { same_next = refl; same_job = refl; flag = λ f. f; epoch = inl refl })
      | inr f ↦
          rw (e, f) (record { same_next = refl; same_job = refl; flag = λ f. f; epoch = inl refl })
    ]
    | inr e ↦ rw e (SameWork-refl m)
  ]

  pub finish_opencl-SameWork :
      (m : Miner M D) (job : ActiveJob M) (id count : ℕ) → SameWork m (finish_opencl m job id count)
  unfolding finish_opencl
  finish_opencl-SameWork m job id count = elim (Bool-cases (still_current m job)) [
    | inl e ↦ elim (Bool-cases (ltb id m.opencl_started)) [
      | inl f ↦
          rw (e, f) (record { same_next = refl; same_job = refl; flag = λ f. f; epoch = inl refl })
      | inr f ↦
          rw (e, f) (record { same_next = refl; same_job = refl; flag = λ f. f; epoch = inl refl })
    ]
    | inr e ↦ rw e (SameWork-refl m)
  ]

  pub finish_cuda-SameWork :
      (m : Miner M D) (job : ActiveJob M) (count : ℕ) → SameWork m (finish_cuda m job count)
  unfolding finish_cuda
  finish_cuda-SameWork m job count = elim (Bool-cases (still_current m job)) [
    | inl e ↦ rw e (record { same_next = refl; same_job = refl; flag = λ f. f; epoch = inl refl })
    | inr e ↦ rw e (SameWork-refl m)
  ]

  pub set_paused-SameWork : (m : Miner M D) (paused : Bool) → SameWork m (set_paused m paused)
  unfolding set_paused
  set_paused-SameWork m paused = elim (Bool-cases (not m.paused && paused)) [
    | inl e ↦ rw e (record { same_next = refl; same_job = refl; flag = λ f. f; epoch = inr refl })
    | inr e ↦ rw e (record { same_next = refl; same_job = refl; flag = λ f. f; epoch = inl refl })
  ]

  pub take_nonce_exhausted-SameWork : (m : Miner M D) → SameWork m (take_nonce_exhausted m).1
  unfolding take_nonce_exhausted
  take_nonce_exhausted-SameWork m = record {
    same_next = refl;
    same_job = refl;
    flag = λ f. cc;
    epoch = inl refl;
  }

  pub pop_share-SameWork : (m : Miner M D) → SameWork m (pop_share m).2
  unfolding pop_share
  pop_share-SameWork m = record {
    same_next = refl;
    same_job = refl;
    flag = λ f. f;
    epoch = inl refl;
  }

  pub request_stop-SameWork : (m : Miner M D) → SameWork m (request_stop m)
  unfolding request_stop
  request_stop-SameWork m = elim (Bool-cases m.started) [
    | inl e ↦ simp e (record { same_next = refl; same_job = refl; flag = λ f. f; epoch = inl refl })
    | inr e ↦ simp e (SameWork-refl m)
  ]

  pub finish_stop-SameWork : (m : Miner M D) → SameWork m (finish_stop m)
  unfolding finish_stop
  finish_stop-SameWork m = record {
    same_next = refl;
    same_job = refl;
    flag = λ f. f;
    epoch = inl refl;
  }

  pub start-SameWork : (m : Miner M D) (x : Starting) → SameWork m (start x m).1
  start-SameWork m x =
      let kept = start-Untouched x m in
      record {
        same_next = kept.0;
        same_job = ap (λ j. j.public_job) kept.1;
        flag = λ f. sym kept.2 ∙ f;
        epoch = inl kept.3;
      }
