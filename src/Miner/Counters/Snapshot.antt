-- ===== src/Miner/Counters/Snapshot.antt =====
-- A snapshot writes as many counters as it returns.
use btcrig.Base.{
  ℕ, zero, suc, ◌+◌, ◌-◌, ◌≤◌, min, ◌≡◌, refl, ap, ◌∙◌, inl, inr, Bool, true, false, ◌&&◌, List, [],
  ◌∷◌, ◌++◌, arith, ltb, ◌==◌, if◌then◌else◌, Bool-cases, length, take, drop, length-append,
  length-take,
}
use btcrig.Miner.{Miner}
use btcrig.Miner.Counters.{
  count_devices, copy_device_hashes, cuda_count, worker_count, snapshot_thread_hashes,
}

length-copy_device_hashes :
    (n room : ℕ) (devices : List Bool) (hashes : List ℕ)
    → length (copy_device_hashes n room devices hashes) ≡ min room (count_devices n devices)
unfolding copy_device_hashes count_devices
length-copy_device_hashes zero zero devices hashes = omega arith
length-copy_device_hashes (suc n) zero devices hashes = omega arith
length-copy_device_hashes zero (suc room) devices hashes = omega arith
length-copy_device_hashes (suc n) (suc room) [] hashes = omega arith
length-copy_device_hashes (suc n) (suc room) (true ∷ devices) hashes =
    omega (arith, length-copy_device_hashes n room devices (drop 1 hashes))
length-copy_device_hashes (suc n) (suc room) (false ∷ devices) hashes =
    omega (arith, length-copy_device_hashes n (suc room) devices (drop 1 hashes))

length-cuda :
    (there : Bool) (out_index count hashes : ℕ)
    → length (if there && ltb out_index count then hashes ∷ [] else [])
      ≡ min (if there then 1 else 0) (count - out_index)
length-cuda true out_index count hashes = elim (Bool-cases (ltb out_index count)) [
  | inl e ↦ rw e (ground arith)
  | inr e ↦ rw e (ground arith)
]
length-cuda false out_index count hashes = omega arith

-- The three parts fill the room that there is.
fills :
    (threads devices cuda count : ℕ)
    → count ≤ threads + devices + cuda
    → min threads count
        + min (count - min threads count) devices
        + min cuda (count - (min threads count + min (count - min threads count) devices))
      ≡ count
fills threads devices cuda count h = omega arith

-- With a counter for each thread, a snapshot of at most `max_count` counters returns the number of
-- workers or `max_count`, the smaller, and has written that many counters.
pub length-snapshot_thread_hashes :
    {M D : Type 0} (m : Miner M D) (max_count : ℕ)
    → length m.thread_hashes ≡ m.thread_count
    → ((snapshot_thread_hashes m max_count).0 ≡ min max_count (worker_count m))
      × (length (snapshot_thread_hashes m max_count).1 ≡ (snapshot_thread_hashes m max_count).0)
unfolding snapshot_thread_hashes worker_count cuda_count
length-snapshot_thread_hashes m max_count h =
    let total = worker_count m in
    let count = if ltb max_count total then max_count else total in
    let cpu_count = if ltb m.thread_count count then m.thread_count else count in
    let cpu = take cpu_count m.thread_hashes in
    let opencl =
      copy_device_hashes m.opencl_started (count - cpu_count) m.opencl_devices m.opencl_hashes in
    let cuda =
      if ltb 0 m.cuda_started && m.cuda_device && ltb (cpu_count + length opencl) count
      then m.cuda_hashes ∷ []
      else [] in
    let least : count ≡ min max_count total = ground arith in
    let cpu_all : length cpu ≡ cpu_count = ground (arith, length-take cpu_count m.thread_hashes) in
    let whole : length (cpu ++ opencl ++ cuda) ≡ count =
      length-append (cpu ++ opencl) cuda
      ∙ ap (λ n. n + length cuda) (length-append cpu opencl)
      ∙ ground (
        arith,
        cpu_all,
        least,
        length-copy_device_hashes m.opencl_started (count - cpu_count) m.opencl_devices
            m.opencl_hashes,
        length-cuda (ltb 0 m.cuda_started && m.cuda_device) (cpu_count + length opencl) count
            m.cuda_hashes,
        fills m.thread_count (count_devices m.opencl_started m.opencl_devices) (cuda_count m) count,
      ) in
    elim (Bool-cases (max_count == 0)) [
      | inl e ↦ rw e (ground arith, refl)
      | inr e ↦ rw e (least, whole)
    ]
