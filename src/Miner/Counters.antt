-- ===== src/Miner/Counters.antt =====
-- The hash counters of miner.c: miner_hashes, miner_thread_count and
-- miner_snapshot_thread_hashes.
pub mod Snapshot
use btcrig.Base.{
  ℕ, zero, suc, ◌+◌, ◌-◌, Bool, ◌&&◌, List, [], ◌∷◌, ◌++◌, ltb, ◌==◌, if◌then◌else◌, length, get_or,
  take, drop,
}
use btcrig.Miner.{Miner}

-- Among the first `n` OpenCL devices, how many are there.
unfoldable pub count_devices : ℕ → List Bool → ℕ
count_devices zero devices = 0
count_devices (suc n) [] = 0
count_devices (suc n) (device ∷ devices) =
    if device then suc (count_devices n devices) else count_devices n devices

-- The hashes of those devices, as long as `room` entries are left in `out`.
unfoldable pub copy_device_hashes : ℕ → ℕ → List Bool → List ℕ → List ℕ
copy_device_hashes n zero devices hashes = []
copy_device_hashes zero (suc room) devices hashes = []
copy_device_hashes (suc n) (suc room) [] hashes = []
copy_device_hashes (suc n) (suc room) (device ∷ devices) hashes =
    let hash = get_or hashes 0 0 in
    if device
    then hash ∷ copy_device_hashes n room devices (drop 1 hashes)
    else copy_device_hashes n (suc room) devices (drop 1 hashes)

module _ {M D : Type 0} where
  -- The CUDA device counts as one.
  unfoldable pub cuda_count : Miner M D → ℕ
  cuda_count m = if ltb 0 m.cuda_started && m.cuda_device then 1 else 0

  unfoldable pub worker_count : Miner M D → ℕ
  unfolding count_devices cuda_count
  worker_count m = m.thread_count + count_devices m.opencl_started m.opencl_devices + cuda_count m

  -- The number returned, and what was written to `out`, in order.
  unfoldable pub snapshot_thread_hashes : Miner M D → ℕ → ℕ × List ℕ
  unfolding worker_count copy_device_hashes
  snapshot_thread_hashes m max_count =
      if max_count == 0
      then (0, [])
      else let total = worker_count m in
        let count = if ltb max_count total then max_count else total in
        let cpu_count = if ltb m.thread_count count then m.thread_count else count in
        let cpu = take cpu_count m.thread_hashes in
        let opencl =
          copy_device_hashes m.opencl_started (count - cpu_count) m.opencl_devices
            m.opencl_hashes in
        let out_index = cpu_count + length opencl in
        let cuda =
          if ltb 0 m.cuda_started && m.cuda_device && ltb out_index count
          then m.cuda_hashes ∷ []
          else [] in
        (count, cpu ++ opencl ++ cuda)
