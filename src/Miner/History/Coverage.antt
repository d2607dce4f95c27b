-- ===== src/Miner/History/Coverage.antt =====
-- The nonces of a job are handed out without a gap and without an overlap.
use btcrig.Base.{
  ℕ, suc, ◌+◌, ◌^◌, ◌≤◌, ◌<◌, ◌≡◌, refl, sym, ap, ◌∙◌, subst, ◌⊎◌, inl, inr, true, false, ◌&&◌,
  List, [], ◌∷◌, arith, ltb, leb, if◌then◌else◌, Bool-cases, All,
}
use btcrig.Word.{u32}
use btcrig.Miner.{ActiveJob, Miner}
use btcrig.Miner.Workers.{Range}
use btcrig.Miner.Workers.Ranges.{take_range_cases}
use btcrig.Miner.Control.{install_job}
use btcrig.Miner.Config.{create}
use btcrig.Miner.History.{
  Call, Traced, takes, reports, finishes_cpu, finishes_opencl, finishes_cuda, installs, pauses,
  takes_exhausted, pops, stops, stopped, starts, step, run,
}
use btcrig.Miner.History.Kept.{
  SameWork, report-SameWork, finish_cpu-SameWork, finish_opencl-SameWork, finish_cuda-SameWork,
  set_paused-SameWork, take_nonce_exhausted-SameWork, pop_share-SameWork, request_stop-SameWork,
  finish_stop-SameWork, start-SameWork,
}

-- How many of the ranges hold the nonce.
abbrev pub times : {M : Type 0} → ℕ → List (Range M) → ℕ
times x [] = 0
times x (r ∷ rs) =
    if leb r.start_nonce x && ltb x (r.start_nonce + r.count) then suc (times x rs) else times x rs

-- The ranges, the newest first, lie end to end from 0 to `n`, and none is empty.
abbrev Tiles : {M : Type 0} → List (Range M) → ℕ → Type 0
Tiles [] n = n ≡ 0
Tiles (r ∷ rs) n = (0 < r.count) × (r.start_nonce + r.count ≡ n) × Tiles rs r.start_nonce

times-Tiles :
    {M : Type 0} (x : ℕ) (rs : List (Range M)) (n : ℕ)
    → Tiles rs n
    → times x rs ≡ (if ltb x n then 1 else 0)
times-Tiles x [] n h = ground arith
times-Tiles x (r ∷ rs) n h = ground (arith, times-Tiles x rs r.start_nonce h.2)

module _ {M D : Type 0} where
  pub record IsCovered (t : Traced M D) : Type 0 where
    pub bound : t.miner.next_nonce ≤ 2 ^ 32
    pub tiles : Tiles t.handed_out t.miner.next_nonce
    pub flag : t.miner.nonce_exhausted ≡ true → t.miner.next_nonce ≡ 2 ^ 32
    pub jobs : All (λ (r : Range M). r.job.public_job ≡ t.miner.job.public_job) t.handed_out

  kept-IsCovered :
      (t : Traced M D) (m : Miner M D)
      → SameWork t.miner m
      → IsCovered t
      → IsCovered (record t { miner = m })
  kept-IsCovered t m same v = record {
    bound = omega (arith, same.same_next);
    tiles = subst (Tiles t.handed_out) (sym same.same_next) v.tiles;
    flag = λ e. same.same_next ∙ v.flag (same.flag e);
    jobs =
        subst (λ j. All (λ (r : Range M). r.job.public_job ≡ j) t.handed_out) (sym same.same_job)
          v.jobs;
  }

  take-IsCovered :
      (hash_difficulty : List ℕ → D) (t : Traced M D) (size : ℕ)
      → IsCovered t
      → IsCovered (step hash_difficulty t (takes size))
  unfolding step
  take-IsCovered hash_difficulty t size v =
      elim (take_range_cases t.miner (u32 size) v.bound (omega arith)) [
        | inl (e, h) ↦ rw e (record {
          bound = omega arith;
          tiles = subst (Tiles t.handed_out) (sym h.same_next) v.tiles;
          flag = λ f. h.same_next ∙ elim (h.flag f) [ inl g ↦ v.flag g | inr g ↦ g ];
          jobs =
              subst (λ j. All (λ (r : Range M). r.job.public_job ≡ j) t.handed_out) (sym h.same_job)
                v.jobs;
        })
        | inr (r, e, h) ↦
            let same = sym (ap (λ (j : ActiveJob M). j.public_job) h.same_job) in
            rw e (record {
              bound = h.bound;
              tiles = (h.nonempty, sym h.next, subst (Tiles t.handed_out) (sym h.start) v.tiles);
              flag = λ f. absurd (omega (arith, v.flag (sym h.same_flag ∙ f)));
              jobs = (
                h.job_of ∙ same,
                subst (λ j. All (λ (r : Range M). r.job.public_job ≡ j) t.handed_out) same v.jobs,
              );
            })
      ]

  install-IsCovered :
      (hash_difficulty : List ℕ → D) (t : Traced M D) (active : ActiveJob M)
      → IsCovered (step hash_difficulty t (installs active))
  unfolding step install_job
  install-IsCovered hash_difficulty t active = record {
    bound = omega arith;
    tiles = refl;
    flag = λ e. cc;
    jobs = tt;
  }

  step-IsCovered :
      (hash_difficulty : List ℕ → D) (t : Traced M D) (c : Call M)
      → IsCovered t
      → IsCovered (step hash_difficulty t c)
  unfolding step
  step-IsCovered hd t (takes size) v = take-IsCovered hd t size v
  step-IsCovered hd t (reports job nonce ws) v =
      kept-IsCovered t _ (report-SameWork hd t.miner job nonce ws) v
  step-IsCovered hd t (finishes_cpu job id n) v =
      kept-IsCovered t _ (finish_cpu-SameWork t.miner job id n) v
  step-IsCovered hd t (finishes_opencl job id n) v =
      kept-IsCovered t _ (finish_opencl-SameWork t.miner job id n) v
  step-IsCovered hd t (finishes_cuda job n) v =
      kept-IsCovered t _ (finish_cuda-SameWork t.miner job n) v
  step-IsCovered hd t (installs active) v = install-IsCovered hd t active
  step-IsCovered hd t (pauses paused) v = kept-IsCovered t _ (set_paused-SameWork t.miner paused) v
  step-IsCovered hd t takes_exhausted v =
      kept-IsCovered t _ (take_nonce_exhausted-SameWork t.miner) v
  step-IsCovered hd t pops v = kept-IsCovered t _ (pop_share-SameWork t.miner) v
  step-IsCovered hd t stops v = kept-IsCovered t _ (request_stop-SameWork t.miner) v
  step-IsCovered hd t stopped v = kept-IsCovered t _ (finish_stop-SameWork t.miner) v
  step-IsCovered hd t (starts x) v = kept-IsCovered t _ (start-SameWork t.miner x) v

  run-IsCovered :
      (hash_difficulty : List ℕ → D) (t : Traced M D) (cs : List (Call M))
      → IsCovered t
      → IsCovered (run hash_difficulty t cs)
  unfolding run
  run-IsCovered hd t [] v = v
  run-IsCovered hd t (c ∷ cs) v = run-IsCovered hd (step hd t c) cs (step-IsCovered hd t c v)

-- A miner as it is created, with nothing handed out.
abbrev pub created : {M D : Type 0} → ActiveJob M → ℕ → Traced M D
created zeroed thread_count = record { miner = create zeroed thread_count; handed_out = [] }

-- In every history of a created miner each nonce below `next_nonce` has been handed out exactly
-- once for the current job and every other nonce never; all ranges carry that job, and either the
-- flag that the nonces are exhausted is down or `next_nonce` is 2 ^ 32.
pub handed_out_once :
    {M D : Type 0} (hash_difficulty : List ℕ → D) (zeroed : ActiveJob M) (thread_count : ℕ)
    (cs : List (Call M))
    → let t = run hash_difficulty (created zeroed thread_count) cs in
      ((x : ℕ) → times x t.handed_out ≡ (if ltb x t.miner.next_nonce then 1 else 0))
      × All (λ (r : Range M). r.job.public_job ≡ t.miner.job.public_job) t.handed_out
      × ((t.miner.nonce_exhausted ≡ false) ⊎ (t.miner.next_nonce ≡ 2 ^ 32))
unfolding create
handed_out_once hd zeroed thread_count cs =
    let v =
      run-IsCovered hd (created zeroed thread_count) cs
        (record { bound = omega arith; tiles = refl; flag = λ e. cc; jobs = tt }) in
    let flag = (run hd (created zeroed thread_count) cs).miner.nonce_exhausted in
    (
      λ x. times-Tiles x _ _ v.tiles,
      v.jobs,
      elim (Bool-cases flag) [ inl up ↦ inr (v.flag up) | inr down ↦ inl down ],
    )
