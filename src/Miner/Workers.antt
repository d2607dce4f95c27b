-- ===== src/Miner/Workers.antt =====
-- What the CPU, OpenCL and CUDA workers of miner.c do under the lock: take a range of nonces,
-- report a match, and add up their hashes.
pub mod Ranges
use btcrig.Base.{
  ℕ, zero, suc, ◌+◌, ◌-◌, ◌*◌, ◌/◌, ◌%◌, ◌^◌, ◌≤◌, ◌<◌, min, max, bit_and, bit_or, bit_xor, ◌≡◌,
  refl, sym, ap, ap₂, ◌∙◌, subst, ◌≢◌, ◌↔◌, ◌⊎◌, inl, inr, Bool, true, false, not, ◌&&◌, ◌||◌,
  Option, none, some, List, [], ◌∷◌, ◌++◌, map, arith, ltb, leb, ◌==◌, if◌then◌else◌, ltb→lt,
  lt→ltb, leb→le, ==_iff, tests, Bool-cases, Option-cases, length, get_or, set, take, drop,
  replicate, All, length-append, length-set, length-take, length-drop, length-replicate,
  take-append-drop, take_append, drop_append, get_or-set_self, get_or-set_ne, get_or-take,
  get_or_ext, All-append, All-take, All-drop, All-get_or, length-map, ◌>>=◌, take_whole,
  take-append, range_from, range_from-suc,
}
use btcrig.Word.{u32, u64}
use btcrig.CString.{copy_checked, copied_or_empty}
use btcrig.ShareQueue.{push}
use btcrig.Sha256d.Midstate.{words_to_hash}
use btcrig.Miner.{PublicJob, ActiveJob, Share, Miner, batch_size, mixed_cpu_batch_size}

-- UINT32_MAX
abbrev pub u32_max : ℕ
u32_max = 2 ^ 32 - 1

-- What a worker goes away with: its copy of the job, and the range `*start_nonce`, `*count`.
pub record Range (M : Type 0) : Type 0 where
  pub job : ActiveJob M
  pub start_nonce : ℕ
  pub count : ℕ

-- The local `range` of `copy_job_and_nonce_range_sized`: what is left, or a batch.
unfoldable pub range_count : ℕ → ℕ → ℕ
range_count next_nonce size =
    let batch = if size == 0 then batch_size else size in
    let remaining = u64 (u32_max - next_nonce + 1) in
    if ltb remaining batch then u32 remaining else batch

-- The share that `queue_share_locked` writes, with the difficulty of its hash.
unfoldable pub make_share : {D : Type 0} → (List ℕ → D) → PublicJob → ℕ → List ℕ → Share D
make_share hash_difficulty job nonce hash = record {
  seq = job.seq;
  nonce = nonce;
  difficulty = hash_difficulty hash;
  hash = hash;
  job_id = copied_or_empty (copy_checked 128 job.job_id);
  extranonce2 = copied_or_empty (copy_checked 32 job.extranonce2);
  ntime = copied_or_empty (copy_checked 16 job.ntime);
}

module _ {M D : Type 0} where
  -- The batch of a CPU worker, smaller beside a GPU.
  unfoldable pub cpu_batch_size : Miner M D → ℕ
  cpu_batch_size m =
      if ltb 0 m.opencl_started || ltb 0 m.cuda_started then mixed_cpu_batch_size else batch_size

  -- `copy_job_and_nonce_range_sized`; `none` is its 0.
  unfoldable pub take_range : Miner M D → ℕ → Option (Range M) × Miner M D
  unfolding range_count
  take_range m size =
      if not m.stop && not m.paused && m.job.valid
      then (if ltb u32_max m.next_nonce
          then (none, record m { job = record (m.job) { valid = false }; nonce_exhausted = true })
          else (let range = range_count m.next_nonce size in
              (
                some (record {
                  job = record (m.job) { pause_epoch = m.pause_epoch };
                  start_nonce = u32 m.next_nonce;
                  count = range;
                }),
                record m { next_nonce = u64 (m.next_nonce + range) },
              )))
      else (none, m)

  -- `copy_job_and_nonce_range`, of the CPU workers.
  unfoldable pub take_cpu_range : Miner M D → Option (Range M) × Miner M D
  unfolding cpu_batch_size take_range
  take_cpu_range m = take_range m (cpu_batch_size m)

  -- `scan_result_still_current_locked`
  unfoldable pub still_current : Miner M D → ActiveJob M → Bool
  still_current m job =
      not m.stop
      && not m.paused
      && m.pause_epoch == job.pause_epoch
      && m.job.public_job.seq == job.public_job.seq

  -- `queue_scan_match`: the callback of the scan.
  unfoldable pub report : (List ℕ → D) → Miner M D → ActiveJob M → ℕ → List ℕ → Miner M D
  unfolding still_current make_share
  report hash_difficulty m job nonce hash_words =
      let hash = words_to_hash hash_words in
      if still_current m job
      then record m { queue = push m.queue (make_share hash_difficulty job.public_job nonce hash) }
      else m

  -- The last section of `worker_main`: `id` is the worker's.
  unfoldable pub finish_cpu : Miner M D → ActiveJob M → ℕ → ℕ → Miner M D
  unfolding still_current
  finish_cpu m job id nonce_count =
      if still_current m job
      then (let m' = record m { hashes = u64 (m.hashes + nonce_count) } in
          if ltb id m.thread_count
          then record m' {
            thread_hashes =
                set m.thread_hashes id (u64 (get_or m.thread_hashes id 0 + nonce_count));
          }
          else m')
      else m

  -- That of `opencl_worker_main`.
  unfoldable pub finish_opencl : Miner M D → ActiveJob M → ℕ → ℕ → Miner M D
  unfolding still_current
  finish_opencl m job id nonce_count =
      if still_current m job
      then (let m' = record m { hashes = u64 (m.hashes + nonce_count) } in
          if ltb id m.opencl_started
          then record m' {
            opencl_hashes =
                set m.opencl_hashes id (u64 (get_or m.opencl_hashes id 0 + nonce_count));
          }
          else m')
      else m

  -- That of `cuda_worker_main`.
  unfoldable pub finish_cuda : Miner M D → ActiveJob M → ℕ → Miner M D
  unfolding still_current
  finish_cuda m job nonce_count =
      if still_current m job
      then record m {
        hashes = u64 (m.hashes + nonce_count);
        cuda_hashes = u64 (m.cuda_hashes + nonce_count);
      }
      else m

-- A section of a worker, with what its thread brings along: copy_job_and_nonce_range of a CPU worker
-- and copy_job_and_nonce_range_sized of a GPU's, queue_scan_match, and the end of each worker's turn.
pub data Section (M : Type 0) : Type 0 where
  cpu_takes : Section M
  gpu_takes : ℕ → Section M
  worker_reports : ActiveJob M → ℕ → List ℕ → Section M
  cpu_finishes opencl_finishes : ActiveJob M → ℕ → ℕ → Section M
  cuda_finishes : ActiveJob M → ℕ → Section M

module _ {M D : Type 0} where
  unfoldable pub section : (List ℕ → D) → Miner M D → Section M → Miner M D
  unfolding take_cpu_range take_range report finish_cpu finish_opencl finish_cuda
  section hash_difficulty m cpu_takes = (take_cpu_range m).1
  section hash_difficulty m (gpu_takes size) = (take_range m (u32 size)).1
  section hash_difficulty m (worker_reports job nonce words) =
      report hash_difficulty m job nonce words
  section hash_difficulty m (cpu_finishes job id count) = finish_cpu m job id count
  section hash_difficulty m (opencl_finishes job id count) = finish_opencl m job id count
  section hash_difficulty m (cuda_finishes job count) = finish_cuda m job count

  -- The sections of all workers, in the order in which they hold the lock.
  unfoldable pub sections : (List ℕ → D) → Miner M D → List (Section M) → Miner M D
  unfolding section
  sections hash_difficulty m [] = m
  sections hash_difficulty m (x ∷ xs) = sections hash_difficulty (section hash_difficulty m x) xs
