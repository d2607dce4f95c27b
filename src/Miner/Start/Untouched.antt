-- ===== src/Miner/Start/Untouched.antt =====
-- miner_start leaves the work and the shares of a miner as they are.
use btcrig.Base.{
  ℕ, zero, suc, ◌+◌, ◌≡◌, refl, not, ◌&&◌, Bool, false, Option, none, some, List, [], ◌∷◌, ltb,
  ◌==◌, length, get_or, set, if-keeps,
}
use btcrig.Miner.{Miner}
use btcrig.Miner.Control.{request_stop, finish_stop}
use btcrig.Miner.Start.{
  Starting, place_devices, open_opencl, open_cuda, destroy_unstarted_gpu_devices,
  stop_partially_started_cpu_threads, start_cpu_threads, start_opencl_threads, start_cuda_thread,
  start_gpu_threads, start,
}

module _ {M D : Type 0} (m0 : Miner M D) where
  -- The fields of `m0` that only sections change.
  abbrev pub Untouched : Miner M D → Type 0
  Untouched m =
      (m.next_nonce ≡ m0.next_nonce)
      × (m.job ≡ m0.job)
      × (m.nonce_exhausted ≡ m0.nonce_exhausted)
      × (m.pause_epoch ≡ m0.pause_epoch)
      × (m.queue ≡ m0.queue)

  place_devices-Untouched :
      (devices : List Bool) (m : Miner M D) → Untouched m → Untouched (place_devices devices m)
  unfolding place_devices
  place_devices-Untouched [] m h = h
  place_devices-Untouched (usable ∷ devices) m h =
      place_devices-Untouched devices _ (if-keeps Untouched usable h h)

  open_opencl-Untouched :
      (devices : List Bool) (m : Miner M D) → Untouched m → Untouched (open_opencl devices m)
  unfolding open_opencl
  open_opencl-Untouched devices m h =
      if-keeps Untouched (length devices == 0) h (place_devices-Untouched devices _ h)

  open_cuda-Untouched :
      (cuda : Option Bool) (m : Miner M D) → Untouched m → Untouched (open_cuda cuda m)
  unfolding open_cuda
  open_cuda-Untouched none m h = h
  open_cuda-Untouched (some created) m h = if-keeps Untouched created h h

  stop_partially-Untouched :
      (m : Miner M D) (count : ℕ)
      → Untouched m
      → Untouched (stop_partially_started_cpu_threads m count)
  unfolding stop_partially_started_cpu_threads destroy_unstarted_gpu_devices request_stop
      finish_stop
  stop_partially-Untouched m count h = h

  start_cpu_threads-Untouched :
      (runs : ℕ → Bool) (left i : ℕ) (m : Miner M D)
      → Untouched m
      → Untouched (start_cpu_threads runs left i m).1
  unfolding start_cpu_threads
  start_cpu_threads-Untouched runs zero i m h = h
  start_cpu_threads-Untouched runs (suc left) i m h =
      if-keeps {A = Bool × Miner M D} (λ r. Untouched r.1) (runs i)
        (start_cpu_threads-Untouched runs left (i + 1) _ h) (stop_partially-Untouched m i h)

  start_opencl_threads-Untouched :
      (runs : ℕ → Bool) (left i running : ℕ) (m : Miner M D)
      → Untouched m
      → Untouched (start_opencl_threads runs left i running m).1
  unfolding start_opencl_threads
  start_opencl_threads-Untouched runs zero i running m h = h
  start_opencl_threads-Untouched runs (suc left) i running m h =
      let go = start_opencl_threads-Untouched runs left (i + 1) in
      let dropped : Miner M D = record m { opencl_devices = set m.opencl_devices i false } in
      if-keeps {A = ℕ × Miner M D} (λ r. Untouched r.1) (not (get_or m.opencl_devices i false))
        (go running m h)
        (if-keeps {A = ℕ × Miner M D} (λ r. Untouched r.1) (runs i) (go (running + 1) m h)
          (go running dropped h))

  start_cuda_thread-Untouched :
      (runs : Bool) (m : Miner M D) → Untouched m → Untouched (start_cuda_thread runs m).1
  unfolding start_cuda_thread
  start_cuda_thread-Untouched runs m h =
      if-keeps {A = Bool × Miner M D} (λ r. Untouched r.1) (ltb 0 m.cuda_started && m.cuda_device)
        (if-keeps {A = Bool × Miner M D} (λ r. Untouched r.1) runs h h) h

  start_gpu_threads-Untouched :
      (x : Starting) (m : Miner M D) → Untouched m → Untouched (start_gpu_threads x m).1
  unfolding start_gpu_threads
  start_gpu_threads-Untouched x m h =
      let opencl = start_opencl_threads x.opencl_runs m.opencl_started 0 0 m in
      let cuda = start_cuda_thread x.cuda_runs opencl.1 in
      let kept =
        start_cuda_thread-Untouched x.cuda_runs opencl.1
          (start_opencl_threads-Untouched x.opencl_runs m.opencl_started 0 0 m h) in
      if-keeps {A = Bool × Miner M D} (λ r. Untouched r.1)
        (cuda.1.thread_count == 0 && opencl.0 == 0 && not cuda.0) kept kept

-- Whatever devices and threads there are, a start changes no job, nonce, epoch or share.
pub start-Untouched : {M D : Type 0} (x : Starting) (m : Miner M D) → Untouched m (start x m).1
unfolding start
start-Untouched {M} {D} x m =
    let same : Untouched m m = (refl, refl, refl, refl, refl) in
    let opened = open_cuda x.cuda (open_opencl x.devices m) in
    let kept = open_cuda-Untouched m x.cuda _ (open_opencl-Untouched m x.devices m same) in
    let cpu = start_cpu_threads x.cpu_runs m.thread_count 0 (record opened { thread_count = 0 }) in
    let kept_cpu = start_cpu_threads-Untouched m x.cpu_runs m.thread_count 0 _ kept in
    if-keeps {A = Bool × Miner M D} (λ r. Untouched m r.1) m.started same
      (if-keeps {A = Bool × Miner M D} (λ r. Untouched m r.1)
        (m.thread_count == 0 && opened.opencl_started == 0 && opened.cuda_started == 0) kept
        (if-keeps {A = Bool × Miner M D} (λ r. Untouched m r.1) (not cpu.0) kept_cpu
          (start_gpu_threads-Untouched m x cpu.1 kept_cpu)))
