-- ===== src/Tests/Mining.antt =====
-- Tests and instances of the theorems on the miner: `M` and `D` are types of one value or numbers.
use btcrig.Base.{
  Bool, none, ◌==◌, ℕ, ◌^◌, min, ◌≡◌, refl, ◌⊎◌, true, false, some, List, [], ◌∷◌, arith, ltb,
  if◌then◌else◌, length, All,
}
use btcrig.ShareQueue.{ShareQueue, empty, push, pop}
use btcrig.ShareQueue.Fifo.{Holds, empty-Holds, push-Holds, pop-Holds}
use btcrig.Miner.{PublicJob, ActiveJob, Share, Miner}
use btcrig.Miner.Config.{create}
use btcrig.Miner.Start.{Starting, start}
use btcrig.Miner.Counters.{worker_count, snapshot_thread_hashes}
use btcrig.Miner.Counters.Snapshot.{length-snapshot_thread_hashes}
use btcrig.Miner.Workers.{Range, take_range, range_count}
use btcrig.Miner.Control.{install_job, pop_share}
use btcrig.Miner.History.{Call, Traced, takes, reports, installs, pauses, stops, starts, step, run}
use btcrig.Miner.History.Coverage.{created, times, handed_out_once}
use btcrig.Miner.History.Freshness.{popped_is_current}
use btcrig.Miner.History.Staleness.{Ignores, pause-Ignores, install-Ignores}

abbrev blank_job : PublicJob
blank_job = record { seq = 0; job_id = []; extranonce2 = []; ntime = []; header = []; target = [] }

abbrev zeroed : ActiveJob ℕ
zeroed = record {
  public_job = blank_job;
  midstate = 0;
  tail_words = [];
  target_words = [];
  pause_epoch = 0;
  valid = false;
}

abbrev work : ActiveJob ℕ
work = record zeroed { public_job = record blank_job { job_id = b'a' ∷ [] }; valid = true }

abbrev no_difficulty : List ℕ → ℕ
no_difficulty hash = 0

-- Two CPU threads start, the only OpenCL device fails its self-test, and CUDA is off.
abbrev cpu_only : Starting
cpu_only = record {
  devices = false ∷ [];
  cuda = none;
  cpu_runs = λ i. true;
  opencl_runs = λ i. true;
  cuda_runs = true;
}

-- The threads start, and two workers take a batch of a new job.
abbrev two_taken : List (Call ℕ)
two_taken = starts cpu_only ∷ installs work ∷ takes 0 ∷ takes 100 ∷ []

abbrev after_two : Traced ℕ ℕ
after_two = run no_difficulty (created zeroed 2) two_taken

next_after_two : after_two.miner.next_nonce ≡ 262244
unfolding run take_range create install_job start
next_after_two = refl

-- The last range of a job is cut at the end of the nonces.
last_range : range_count 4294967290 262144 ≡ 6
unfolding range_count
last_range = refl

handed_out_once_example :
    ((x : ℕ) → times x after_two.handed_out ≡ (if ltb x after_two.miner.next_nonce then 1 else 0))
    × All (λ (r : Range ℕ). r.job.public_job ≡ after_two.miner.job.public_job) after_two.handed_out
    × ((after_two.miner.nonce_exhausted ≡ false) ⊎ (after_two.miner.next_nonce ≡ 2 ^ 32))
handed_out_once_example = handed_out_once no_difficulty zeroed 2 two_taken

abbrev after_stop : Traced ℕ ℕ
after_stop = run no_difficulty (created zeroed 2) (starts cpu_only ∷ stops ∷ [])

stop_raised : after_stop.miner.stop ≡ true
unfolding run start create btcrig.Miner.Control.request_stop
stop_raised = refl

-- Where the second thread does not start, the first is stopped again.
abbrev one_fails : Bool × Miner ℕ ℕ
one_fails = start (record cpu_only { cpu_runs = λ i. i == 0 }) (created zeroed 2).miner

start_fails : (one_fails.0 ≡ false) × (one_fails.1.started ≡ false) × (one_fails.1.thread_count ≡ 1)
unfolding start create btcrig.Miner.Control.request_stop btcrig.Miner.Control.finish_stop
start_fails = (refl, refl, refl)

-- The job that a worker took is reported on.
abbrev reported : List (Call ℕ)
reported =
    installs work
    ∷ takes 0
    ∷ reports (record work { public_job = record (work.public_job) { seq = 1 } }) 7 []
    ∷ []

abbrev after_report : Miner ℕ ℕ
after_report = (run no_difficulty (created zeroed 2) reported).miner

share_found : (pop_share after_report).0 ≡ true
unfolding run take_range create pop_share push pop empty btcrig.Miner.Workers.report install_job
    btcrig.ShareQueue.clear
share_found = refl

popped_is_current_example :
    ((pop_share after_report).0 ≡ false)
    ⊎ (((pop_share after_report).0 ≡ true)
        × ((s : Share ℕ) × ((pop_share after_report).1 ≡ some s)
            × (s.seq ≡ after_report.job.public_job.seq)))
popped_is_current_example = popped_is_current no_difficulty zeroed 2 reported

pause-Ignores_example :
    Ignores no_difficulty
      (run no_difficulty
        (step no_difficulty (created zeroed 2) (pauses true))
        (pauses false ∷ [])).miner
      work
unfolding create
pause-Ignores_example =
    pause-Ignores no_difficulty (created zeroed 2) work (pauses false ∷ []) refl refl (omega arith)

install-Ignores_example :
    Ignores no_difficulty
      (run no_difficulty
        (step no_difficulty (created zeroed 2) (installs work))
        (takes 5 ∷ [])).miner
      work
unfolding create
install-Ignores_example =
    install-Ignores no_difficulty (created zeroed 2) work work (takes 5 ∷ []) refl (omega arith)

abbrev one_queued : ShareQueue ℕ
one_queued = push empty 3

push-Holds_example : Holds one_queued (3 ∷ [])
push-Holds_example = push-Holds empty [] 3 empty-Holds

pop-Holds_example :
    ((pop one_queued).0 ≡ true) × ((pop one_queued).1 ≡ some 3) × Holds ((pop one_queued).2) []
pop-Holds_example = pop-Holds one_queued 3 [] (push-Holds empty [] 3 empty-Holds)

abbrev idle : Miner ℕ ℕ
idle = create zeroed 2

idle_counters : length idle.thread_hashes ≡ idle.thread_count
unfolding create
idle_counters = refl

length-snapshot_thread_hashes_example :
    ((snapshot_thread_hashes idle 8).0 ≡ min 8 (worker_count idle))
    × (length (snapshot_thread_hashes idle 8).1 ≡ (snapshot_thread_hashes idle 8).0)
length-snapshot_thread_hashes_example = length-snapshot_thread_hashes idle 8 idle_counters
