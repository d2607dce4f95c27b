-- ===== src/Miner/Start.antt =====
-- miner_start of miner.c in a build with OpenCL and CUDA: which threads a miner begins with, and what
-- is left where they cannot be started. What the devices and pthread_create answer is an argument; the
-- plan of the affinity is in `Cpu`. The threads that run already wait for a job meanwhile.
pub mod Untouched
use btcrig.Base.{
  ℕ, zero, suc, ◌+◌, Bool, true, false, not, ◌&&◌, Option, none, some, List, [], ◌∷◌, ltb, ◌==◌,
  if◌then◌else◌, length, get_or, set, replicate,
}
use btcrig.Miner.{Miner}
use btcrig.Miner.Control.{drop_devices, request_stop, finish_stop}

-- `devices` are the resolved OpenCL devices, each with whether its self-test passes and it is created;
-- none of them where OpenCL is off or resolves none. `cuda` is none where CUDA is off or its self-test
-- fails, and else whether the device is created. The others say which threads start.
pub record Starting : Type 0 where
  pub devices : List Bool
  pub cuda : Option Bool
  pub cpu_runs : ℕ → Bool
  pub opencl_runs : ℕ → Bool
  pub cuda_runs : Bool

module _ {M D : Type 0} where
  -- The loop over the resolved devices: each that is usable takes the next slot.
  unfoldable pub place_devices : List Bool → Miner M D → Miner M D
  place_devices [] m = m
  place_devices (usable ∷ devices) m = place_devices devices (
      if usable
      then record m {
        opencl_devices = set m.opencl_devices m.opencl_started true;
        opencl_started = m.opencl_started + 1;
      }
      else m)

  unfoldable pub open_opencl : List Bool → Miner M D → Miner M D
  unfolding place_devices
  open_opencl devices m =
      if length devices == 0
      then m
      else place_devices devices (record m {
        opencl_devices = replicate (length devices) false;
        opencl_hashes = replicate (length devices) 0;
      })

  unfoldable pub open_cuda : Option Bool → Miner M D → Miner M D
  open_cuda none m = m
  open_cuda (some created) m =
      if created
      then record m { cuda_device = true; cuda_started = 1 }
      else record m { cuda_device = false }

  unfoldable pub destroy_unstarted_gpu_devices : Miner M D → Miner M D
  destroy_unstarted_gpu_devices m = record m {
    opencl_devices = drop_devices m.opencl_started m.opencl_devices;
    opencl_started = 0;
    cuda_device = false;
    cuda_started = 0;
  }

  unfoldable pub stop_partially_started_cpu_threads : Miner M D → ℕ → Miner M D
  unfolding destroy_unstarted_gpu_devices
  stop_partially_started_cpu_threads m thread_count = finish_stop (
      request_stop
        (record (destroy_unstarted_gpu_devices m) { thread_count = thread_count; started = true }))

  -- The CPU threads from `i` on, `left` of them; the flag is false where one does not start.
  unfoldable pub start_cpu_threads : (ℕ → Bool) → ℕ → ℕ → Miner M D → Bool × Miner M D
  unfolding stop_partially_started_cpu_threads
  start_cpu_threads runs zero i m = (true, m)
  start_cpu_threads runs (suc left) i m =
      let rest = start_cpu_threads runs left (i + 1) (record m { thread_count = i + 1 }) in
      if runs i then rest else (false, stop_partially_started_cpu_threads m i)

  -- The OpenCL threads in the same way, with the count `running`.
  unfoldable pub start_opencl_threads : (ℕ → Bool) → ℕ → ℕ → ℕ → Miner M D → ℕ × Miner M D
  start_opencl_threads runs zero i running m = (running, m)
  start_opencl_threads runs (suc left) i running m =
      let go = start_opencl_threads runs left (i + 1) in
      let dropped = record m { opencl_devices = set m.opencl_devices i false } in
      if not (get_or m.opencl_devices i false)
      then go running m
      else if runs i
      then go (running + 1) m
      else go running dropped

  -- The CUDA thread, and whether it runs.
  unfoldable pub start_cuda_thread : Bool → Miner M D → Bool × Miner M D
  start_cuda_thread runs m =
      if ltb 0 m.cuda_started && m.cuda_device
      then if runs then (true, m) else (false, record m { cuda_device = false; cuda_started = 0 })
      else (false, m)

  -- Behind the CPU threads.
  unfoldable pub start_gpu_threads : Starting → Miner M D → Bool × Miner M D
  unfolding start_opencl_threads start_cuda_thread
  start_gpu_threads x m =
      let (running, m1) = start_opencl_threads x.opencl_runs m.opencl_started 0 0 m in
      let (cuda_running, m2) = start_cuda_thread x.cuda_runs m1 in
      if m2.thread_count == 0 && running == 0 && not cuda_running
      then (false, m2)
      else (true, record m2 { started = true })

  -- `miner_start`: the flag is false for its -1.
  unfoldable pub start : Starting → Miner M D → Bool × Miner M D
  unfolding open_opencl open_cuda start_cpu_threads start_gpu_threads
  start x m =
      let opened = open_cuda x.cuda (open_opencl x.devices m) in
      let (all_run, m1) =
        start_cpu_threads x.cpu_runs m.thread_count 0 (record opened { thread_count = 0 }) in
      if m.started
      then (true, m)
      else if m.thread_count == 0 && opened.opencl_started == 0 && opened.cuda_started == 0
      then (false, opened)
      else if not all_run
      then (false, m1)
      else start_gpu_threads x m1
