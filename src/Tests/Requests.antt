-- ===== src/Tests/Requests.antt =====
-- Instances of the theorems on the requests of a session.
use btcrig.Base.{ℕ, ◌≡◌, ◌⊎◌, refl, true, false, some, [], ◌∷◌}
use btcrig.ShareQueue.{empty, push}
use btcrig.ShareQueue.Fifo.{Holds, empty-Holds, push-Holds}
use btcrig.Sha256d.Midstate.{Midstate}
use btcrig.Miner.{Miner, Share, ActiveJob}
use btcrig.Miner.Workers.{gpu_takes, cpu_takes, worker_reports, cpu_finishes}
use btcrig.Stratum.Lines.{Reader}
use btcrig.Stratum.Client.{Client, ClientConfig, ClientTurn, flush_shares, flush_mining}
use btcrig.Stratum.Client.Loop.{client_init, run_client}
use btcrig.Stratum.Session.{Session, session_init}
use btcrig.Stratum.Handlers.Fit.{IsFit}
use btcrig.Stratum.Client.Bounds.{run_client-IsFit}
use btcrig.Stratum.Client.Requests.{InOrder, submit_ids}
use btcrig.Stratum.Client.Order.{client_of, run_client-InOrder}
use btcrig.Stratum.Client.Flush.{submits, Waiting, flush_shares-submits, counted}
use btcrig.Tests.Session.{length_lib, whole_numbers, notify_only, fresh}

abbrev quiet_reader : Reader
quiet_reader = record { buffer = b'x' ∷ b'\n' ∷ []; incoming = [] }

abbrev someone : ClientConfig ℕ
someone = record { user = b'u' ∷ []; password = b'x' ∷ []; suggested = 1; session_seconds = 0 }

abbrev share_of : ℕ → Share ℕ
share_of nonce = record {
  seq = 1;
  nonce = nonce;
  difficulty = 7;
  hash = [];
  job_id = b'j' ∷ [];
  extranonce2 = [];
  ntime = [];
}

abbrev no_job : ActiveJob (Midstate length_lib)
no_job = record {
  public_job = record {
    seq = 1;
    job_id = [];
    extranonce2 = [];
    ntime = [];
    header = [];
    target = [];
  };
  midstate = record { ctx = tt; second_ctx = tt; fast_state = [] };
  tail_words = [];
  target_words = [];
  pause_epoch = 0;
  valid = false;
}

-- A miner with two shares that wait.
abbrev two_shares : Miner (Midstate length_lib) ℕ
two_shares = record {
  thread_count = 1;
  opencl_devices = [];
  opencl_hashes = [];
  cuda_device = false;
  cuda_hashes = 0;
  started = true;
  opencl_started = 0;
  cuda_started = 0;
  stop = false;
  paused = false;
  pause_epoch = 0;
  job = no_job;
  next_nonce = 0;
  nonce_exhausted = false;
  hashes = 0;
  thread_hashes = 0 ∷ [];
  queue = push (push empty (share_of 5)) (share_of 6);
}

two_shares-Holds : Holds two_shares.queue (share_of 5 ∷ share_of 6 ∷ [])
two_shares-Holds =
    push-Holds (push empty (share_of 5)) (share_of 5 ∷ []) (share_of 6)
      (push-Holds empty [] (share_of 5) empty-Holds)

-- A miner that has a job and no share yet.
abbrev hashing : Miner (Midstate length_lib) ℕ
hashing = record two_shares { job = record no_job { valid = true }; queue = empty }

-- The job as a worker takes it behind the first pause.
abbrev resumed : ActiveJob (Midstate length_lib)
resumed = record no_job { valid = true; pause_epoch = 1 }

abbrev at_work : Session length_lib ℕ
at_work = record fresh { miner = some hashing }

abbrev one_turn : ClientTurn length_lib ℕ
one_turn = record {
  runtime_over = false;
  period_over = false;
  mined = gpu_takes 100 ∷ [];
  keys = record { ch = b'p'; mined = [] } ∷ record { ch = b'r'; mined = cpu_takes ∷ [] } ∷ [];
  pops =
      record { mined = worker_reports resumed 7 [] ∷ []; sends = true; now = 1 }
      ∷ record {
        mined = cpu_finishes resumed 0 100 ∷ worker_reports resumed 9 [] ∷ [];
        sends = true;
        now = 2;
      }
      ∷ [];
  submit_sent = λ i. true;
  submit_time = λ i. i;
  mined_flushed = [];
  events = [];
  mined_reading = worker_reports resumed 11 [] ∷ [];
  line_time = 0;
  authorize_works = true;
  suggest_works = true;
}

-- The miner has no share at first: its workers find two before a pop, and one while read_line waits.
run_client-InOrder_example :
    ((true ≡ false)
      × ((client_of length_lib whole_numbers notify_only (
            run_client length_lib whole_numbers notify_only [] someone true
              (one_turn ∷ one_turn ∷ [])
              at_work
              quiet_reader)).sent
          ≡ []))
    ⊎ ((true ≡ true)
        × InOrder
            (client_of length_lib whole_numbers notify_only (
              run_client length_lib whole_numbers notify_only [] someone true
                (one_turn ∷ one_turn ∷ [])
                at_work
                quiet_reader)).sent)
run_client-InOrder_example =
    run_client-InOrder length_lib whole_numbers notify_only [] someone true
      (one_turn ∷ one_turn ∷ []) at_work quiet_reader

run_client-IsFit_example :
    IsFit
      (client_of length_lib whole_numbers notify_only (
        run_client length_lib whole_numbers notify_only [] someone true
          (one_turn ∷ one_turn ∷ [])
          (session_init length_lib whole_numbers (some hashing))
          quiet_reader)).session
run_client-IsFit_example =
    run_client-IsFit length_lib whole_numbers notify_only [] someone true (one_turn ∷ one_turn ∷ [])
      (some hashing) quiet_reader

-- Both shares that are found before a pop of the turn are submitted, with the first two ids.
two_submitted :
    submit_ids
      (flush_mining length_lib whole_numbers notify_only
        (b'u' ∷ [])
        one_turn.pops
        (λ i. true)
        (λ i. i)
        (client_init length_lib whole_numbers notify_only
          (record at_work { miner = some (record hashing { pause_epoch = 1 }) })
          quiet_reader)).1.sent
    ≡ 4 ∷ 5 ∷ []
unfolding flush_mining btcrig.Stratum.Client.mine btcrig.Miner.Workers.section client_init push
    btcrig.ShareQueue.pop btcrig.Stratum.Session.register_pending_share empty
    btcrig.Miner.Workers.report btcrig.Miner.Workers.finish_cpu btcrig.Miner.Control.pop_share
    btcrig.Miner.Workers.sections btcrig.Stratum.Session.flush_share
two_submitted = refl

abbrev mining : Client length_lib ℕ
mining = record {
  session = record fresh { miner = some two_shares };
  reader = quiet_reader;
  authorize_sent = true;
  suggest_sent = false;
  next_rpc_id = 4;
  timed = false;
  sent = [];
}

flush_shares-submits_example :
    (after : Client length_lib ℕ) × (flush_shares length_lib whole_numbers notify_only
        (b'u' ∷ [])
        (λ i. true)
        (λ i. i)
        mining
      ≡ (true, after))
    × (after.sent ≡ submits (b'u' ∷ []) 4 (share_of 5 ∷ share_of 6 ∷ []))
    × (after.session.submit_count ≡ counted length_lib whole_numbers notify_only 2 0)
    × Waiting length_lib whole_numbers notify_only after.session []
flush_shares-submits_example =
    flush_shares-submits length_lib whole_numbers notify_only (b'u' ∷ []) (λ i. true) (λ i. i)
      mining (share_of 5 ∷ share_of 6 ∷ []) (λ i. refl) (two_shares, refl, two_shares-Holds)
