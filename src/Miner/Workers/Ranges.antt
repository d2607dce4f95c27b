-- ===== src/Miner/Workers/Ranges.antt =====
-- What `copy_job_and_nonce_range_sized` hands out.
use btcrig.Base.{
  ℕ, ◌+◌, ◌^◌, ◌≤◌, ◌<◌, ◌≡◌, ◌⊎◌, refl, arith, true, not, ◌&&◌, ltb, none, some, Bool-cases, inl,
  inr,
}
use btcrig.Miner.{Miner}
use btcrig.Miner.Workers.{Range, range_count, take_range, u32_max}

range_count_bounds :
    (next size : ℕ)
    → next ≤ u32_max
    → size < 2 ^ 32
    → (0 < range_count next size) × (next + range_count next size ≤ 2 ^ 32)
unfolding range_count
range_count_bounds next size hn hs = ground arith

module _ {M D : Type 0} where
  -- The range starts where the last one ended and is not empty, and the miner goes on behind it.
  pub record Hands (m : Miner M D) (r : Range M) (m' : Miner M D) : Type 0 where
    pub start : r.start_nonce ≡ m.next_nonce
    pub nonempty : 0 < r.count
    pub next : m'.next_nonce ≡ r.start_nonce + r.count
    pub bound : m'.next_nonce ≤ 2 ^ 32
    pub job_of : r.job.public_job ≡ m.job.public_job
    pub tail_of : r.job.tail_words ≡ m.job.tail_words
    pub target_of : r.job.target_words ≡ m.job.target_words
    pub epoch_of : r.job.pause_epoch ≡ m.pause_epoch
    pub same_job : m'.job ≡ m.job
    pub same_flag : m'.nonce_exhausted ≡ m.nonce_exhausted
    pub same_epoch : m'.pause_epoch ≡ m.pause_epoch
    pub same_queue : m'.queue ≡ m.queue

  -- No range: the miner keeps its place, and if it says so for the first time, all nonces are out.
  pub record Refuses (m m' : Miner M D) : Type 0 where
    pub same_next : m'.next_nonce ≡ m.next_nonce
    pub same_job : m'.job.public_job ≡ m.job.public_job
    pub flag : m'.nonce_exhausted ≡ true → (m.nonce_exhausted ≡ true) ⊎ (m.next_nonce ≡ 2 ^ 32)
    pub same_epoch : m'.pause_epoch ≡ m.pause_epoch
    pub same_queue : m'.queue ≡ m.queue

  pub take_range_cases :
      (m : Miner M D) (size : ℕ)
      → m.next_nonce ≤ 2 ^ 32
      → size < 2 ^ 32
      → (((take_range m size).0 ≡ none) × Refuses m (take_range m size).1)
        ⊎ ((r : Range M) × ((take_range m size).0 ≡ some r) × Hands m r (take_range m size).1)
  unfolding take_range
  take_range_cases m size hn hs = elim (Bool-cases (not m.stop && not m.paused && m.job.valid)) [
    | inr idle ↦ rw idle (inl (refl, kept))
    | inl live ↦ elim (Bool-cases (ltb u32_max m.next_nonce)) [
      | inl out ↦
          rw (live, out)
            (inl (
              refl,
              record {
                same_next = refl;
                same_job = refl;
                flag = λ e. inr (ground arith);
                same_epoch = refl;
                same_queue = refl;
              },
            ))
      | inr more ↦
          let last : m.next_nonce ≤ u32_max = ground arith in
          let (some_left, fits) = range_count_bounds m.next_nonce size last hs in
          rw (live, more)
            (inr (
              _,
              refl,
              record {
                start = omega arith;
                nonempty = some_left;
                next = omega arith;
                bound = omega arith;
                job_of = refl;
                tail_of = refl;
                target_of = refl;
                epoch_of = refl;
                same_job = refl;
                same_flag = refl;
                same_epoch = refl;
                same_queue = refl;
              },
            ))
    ]
  ]
    where
      kept : Refuses m m
      kept = record {
        same_next = refl;
        same_job = refl;
        flag = λ e. inl e;
        same_epoch = refl;
        same_queue = refl;
      }
