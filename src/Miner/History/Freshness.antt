-- ===== src/Miner/History/Freshness.antt =====
-- Only shares of the current job wait in the queue.
use btcrig.Base.{
  ap, ℕ, ◌≡◌, ◌⊎◌, refl, sym, arith, subst, List, [], ◌∷◌, length, All, All-append, Bool, true,
  false, ltb, some, Bool-cases, inl, inr,
}
use btcrig.ShareQueue.Fifo.{
  Holds, pushed, push-Holds, pop-Holds, pop-empty, clear-Holds, empty-Holds,
}
use btcrig.Sha256d.Midstate.{words_to_hash}
use btcrig.Miner.{ActiveJob, Share, Miner}
use btcrig.Miner.Workers.{
  still_current, make_share, take_range, report, finish_cpu, finish_opencl, finish_cuda,
}
use btcrig.Miner.Control.{
  install_job, set_paused, take_nonce_exhausted, pop_share, request_stop, finish_stop,
}
use btcrig.Miner.Config.{create}
use btcrig.Miner.History.{
  Call, Traced, takes, reports, finishes_cpu, finishes_opencl, finishes_cuda, installs, pauses,
  takes_exhausted, pops, stops, stopped, starts, step, run,
}
use btcrig.Miner.Start.{Starting, start}
use btcrig.Miner.Start.Untouched.{start-Untouched}
use btcrig.Miner.History.Coverage.{created}

pushed-All :
    {D : Type 0} (P : Share D → Type 0) (q : List (Share D)) (s : Share D)
    → All P q
    → P s
    → All P (pushed q s)
pushed-All P q s h p = elim (Bool-cases (ltb (length q) 256)) [
  | inl e ↦ rw e (All-append P q (s ∷ []) h (p, tt))
  | inr e ↦ rw e h
]

module _ {M D : Type 0} where
  -- The queue holds `held`, the oldest first, all of the current job.
  pub record IsFresh (m : Miner M D) : Type 0 where
    pub held : List (Share D)
    pub holds : Holds m.queue held
    pub current : All (λ (s : Share D). s.seq ≡ m.job.public_job.seq) held

  SameQueue : Miner M D → Miner M D → Type 0
  SameQueue m m' = (m'.queue ≡ m.queue) × (m'.job.public_job.seq ≡ m.job.public_job.seq)

  same-IsFresh : (m m' : Miner M D) → SameQueue m m' → IsFresh m → IsFresh m'
  unfolding SameQueue
  same-IsFresh m m' same v = record {
    held = v.held;
    holds = subst (λ q. Holds q v.held) (sym same.0) v.holds;
    current = subst (λ n. All (λ (s : Share D). s.seq ≡ n) v.held) (sym same.1) v.current;
  }

  take_range-SameQueue : (m : Miner M D) (size : ℕ) → SameQueue m (take_range m size).1
  unfolding SameQueue take_range
  take_range-SameQueue m size = ground arith

  finish_cpu-SameQueue :
      (m : Miner M D) (job : ActiveJob M) (id n : ℕ) → SameQueue m (finish_cpu m job id n)
  unfolding SameQueue finish_cpu
  finish_cpu-SameQueue m job id n = ground arith

  finish_opencl-SameQueue :
      (m : Miner M D) (job : ActiveJob M) (id n : ℕ) → SameQueue m (finish_opencl m job id n)
  unfolding SameQueue finish_opencl
  finish_opencl-SameQueue m job id n = ground arith

  finish_cuda-SameQueue :
      (m : Miner M D) (job : ActiveJob M) (n : ℕ) → SameQueue m (finish_cuda m job n)
  unfolding SameQueue finish_cuda
  finish_cuda-SameQueue m job n = ground arith

  set_paused-SameQueue : (m : Miner M D) (paused : Bool) → SameQueue m (set_paused m paused)
  unfolding SameQueue set_paused
  set_paused-SameQueue m paused = ground arith

  request_stop-SameQueue : (m : Miner M D) → SameQueue m (request_stop m)
  unfolding SameQueue request_stop
  request_stop-SameQueue m = ground arith

  start-SameQueue : (m : Miner M D) (x : Starting) → SameQueue m (start x m).1
  unfolding SameQueue
  start-SameQueue m x =
      let kept = start-Untouched x m in (kept.4, ap (λ j. j.public_job.seq) kept.1)

  -- A result that is still current is of the current job.
  still_current-seq :
      (m : Miner M D) (job : ActiveJob M)
      → still_current m job ≡ true
      → job.public_job.seq ≡ m.job.public_job.seq
  unfolding still_current
  still_current-seq m job e = ground arith

  report-IsFresh :
      (hash_difficulty : List ℕ → D) (m : Miner M D) (job : ActiveJob M) (nonce : ℕ) (ws : List ℕ)
      → IsFresh m
      → IsFresh (report hash_difficulty m job nonce ws)
  unfolding report
  report-IsFresh hd m job nonce ws v = elim (Bool-cases (still_current m job)) [
    | inl e ↦
        let share = make_share hd job.public_job nonce (words_to_hash ws) in
        rw e (record {
          held = pushed v.held share;
          holds = push-Holds m.queue v.held share v.holds;
          current =
              pushed-All _ v.held share v.current (unfold make_share in still_current-seq m job e);
        })
    | inr e ↦ rw e v
  ]

  install-IsFresh :
      (m : Miner M D) (active : ActiveJob M) → IsFresh m → IsFresh (install_job m active)
  unfolding install_job
  install-IsFresh m active v = record {
    held = [];
    holds = clear-Holds m.queue v.holds.size;
    current = tt;
  }

  -- What a pop finds, and what it leaves.
  pop_share-IsFresh :
      (m : Miner M D) (held : List (Share D))
      → Holds m.queue held
      → All (λ (s : Share D). s.seq ≡ m.job.public_job.seq) held
      → IsFresh (pop_share m).2
        × (((pop_share m).0 ≡ false)
            ⊎ (((pop_share m).0 ≡ true)
                × ((s : Share D) × ((pop_share m).1 ≡ some s) × (s.seq ≡ m.job.public_job.seq))))
  unfolding pop_share
  pop_share-IsFresh m [] h c =
      rw (pop-empty m.queue h) (record { held = []; holds = h; current = tt }, inl refl)
  pop_share-IsFresh m (s ∷ q) h c =
      let (found, first, rest) = pop-Holds m.queue s q h in
      (record { held = q; holds = rest; current = c.1 }, inr (found, (s, first, c.0)))

  step-IsFresh :
      (hash_difficulty : List ℕ → D) (t : Traced M D) (c : Call M)
      → IsFresh t.miner
      → IsFresh (step hash_difficulty t c).miner
  unfolding step
  step-IsFresh hd t (takes size) v = same-IsFresh t.miner _ (take_range-SameQueue t.miner _) v
  step-IsFresh hd t (reports job nonce ws) v = report-IsFresh hd t.miner job nonce ws v
  step-IsFresh hd t (finishes_cpu job id n) v =
      same-IsFresh t.miner _ (finish_cpu-SameQueue t.miner job id n) v
  step-IsFresh hd t (finishes_opencl job id n) v =
      same-IsFresh t.miner _ (finish_opencl-SameQueue t.miner job id n) v
  step-IsFresh hd t (finishes_cuda job n) v =
      same-IsFresh t.miner _ (finish_cuda-SameQueue t.miner job n) v
  step-IsFresh hd t (installs active) v = install-IsFresh t.miner active v
  step-IsFresh hd t (pauses paused) v =
      same-IsFresh t.miner _ (set_paused-SameQueue t.miner paused) v
  step-IsFresh hd t takes_exhausted v =
      same-IsFresh t.miner _ (unfold SameQueue take_nonce_exhausted in (refl, refl)) v
  step-IsFresh hd t pops v = (pop_share-IsFresh t.miner v.held v.holds v.current).0
  step-IsFresh hd t stops v = same-IsFresh t.miner _ (request_stop-SameQueue t.miner) v
  step-IsFresh hd t stopped v =
      same-IsFresh t.miner _ (unfold SameQueue finish_stop in (refl, refl)) v
  step-IsFresh hd t (starts x) v = same-IsFresh t.miner _ (start-SameQueue t.miner x) v

  run-IsFresh :
      (hash_difficulty : List ℕ → D) (t : Traced M D) (cs : List (Call M))
      → IsFresh t.miner
      → IsFresh (run hash_difficulty t cs).miner
  unfolding run
  run-IsFresh hd t [] v = v
  run-IsFresh hd t (c ∷ cs) v = run-IsFresh hd (step hd t c) cs (step-IsFresh hd t c v)

-- After every history of a created miner, `miner_pop_share` finds nothing, or a share that was
-- found for the job that is current when it is popped.
pub popped_is_current :
    {M D : Type 0} (hash_difficulty : List ℕ → D) (zeroed : ActiveJob M) (thread_count : ℕ)
    (cs : List (Call M))
    → let m = (run hash_difficulty (created zeroed thread_count) cs).miner in
      ((pop_share m).0 ≡ false)
      ⊎ (((pop_share m).0 ≡ true)
          × ((s : Share D) × ((pop_share m).1 ≡ some s) × (s.seq ≡ m.job.public_job.seq)))
unfolding create
popped_is_current hd zeroed thread_count cs =
    let v =
      run-IsFresh hd (created zeroed thread_count) cs
        (record { held = []; holds = empty-Holds; current = tt }) in
    (pop_share-IsFresh _ v.held v.holds v.current).1
