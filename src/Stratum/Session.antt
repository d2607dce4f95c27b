-- ===== src/Stratum/Session.antt =====
-- The session of stratum.c: rebuild_miner_job, register_pending_share, complete_pending_share,
-- flush_shares (one turn of its loop) and maybe_roll_extranonce. What is printed, and the fields that only the display
-- reads (addresses and times of the connection), are left out. The clock is the argument `now`.
use btcrig.Base.{
  ℕ, ◌+◌, Bool, true, false, not, ◌||◌, Option, none, some, List, [], ◌==◌, if◌then◌else◌, length,
}
use btcrig.Word.{u64}
use btcrig.Sha256d.OpenSsl.{OpenSsl}
use btcrig.Sha256d.Midstate.{Midstate}
use btcrig.Miner.{PublicJob, Share, Miner}
use btcrig.Miner.Control.{set_job, take_nonce_exhausted, pop_share}
use btcrig.Job.{Doubles, Template, build_job, format_extranonce2}
use btcrig.Stratum.Pending.{PendingTable, register, complete, no_pending}

-- `stratum_state_t`: `template_merkle` are the first `template_merkle_count` rows of the array.
pub record Session (lib : OpenSsl) (D : Type 0) : Type 0 where
  pub extranonce1 : List ℕ
  pub current_job_id : List ℕ
  pub current_ntime : List ℕ
  pub template_job_id : List ℕ
  pub template_prevhash : List ℕ
  pub template_coinb1 : List ℕ
  pub template_coinb2 : List ℕ
  pub template_version : List ℕ
  pub template_nbits : List ℕ
  pub template_ntime : List ℕ
  pub template_merkle : List (List ℕ)
  pub template_valid : Bool
  pub extranonce2_size : ℕ
  pub difficulty : D
  pub last_share_difficulty : D
  pub best_share_difficulty : D
  pub last_result_difficulty : D
  pub last_result_elapsed : D
  pub last_result_accepted : Option Bool
  pub notify_count : ℕ
  pub submit_count : ℕ
  pub accept_count : ℕ
  pub reject_count : ℕ
  pub subscribed : Bool
  pub authorized : Bool
  pub miner : Option (Miner (Midstate lib) D)
  pub extranonce2_counter : ℕ
  pub table : PendingTable D

module _ (lib : OpenSsl) (F : Doubles) where
  -- The call of `miner_build_job` in `rebuild_miner_job`.
  unfoldable pub template_of : Session lib F.Double → List ℕ → Template F.Double
  template_of s extranonce2 = record {
    job_id = s.template_job_id;
    prevhash = s.template_prevhash;
    coinb1 = s.template_coinb1;
    coinb2 = s.template_coinb2;
    merkle = s.template_merkle;
    version = s.template_version;
    nbits = s.template_nbits;
    ntime = s.template_ntime;
    extranonce1 = s.extranonce1;
    extranonce2 = extranonce2;
    difficulty = s.difficulty;
  }

  -- The end of `rebuild_miner_job`, on what `miner_build_job` made.
  unfoldable pub install_built :
      List ℕ
      → Session lib F.Double
      → Miner (Midstate lib) F.Double
      → Option PublicJob
      → Session lib F.Double
  install_built junk s m none = s
  install_built junk s m (some job) = record s { miner = some (set_job lib junk m job) }

  -- Its body, for the miner of the session.
  unfoldable pub rebuild_with :
      List ℕ → Session lib F.Double → Option (Miner (Midstate lib) F.Double) → Session lib F.Double
  unfolding template_of install_built
  rebuild_with junk s none = s
  rebuild_with junk s (some m) =
      if not s.template_valid || (length s.extranonce1 == 0) || (s.extranonce2_size == 0)
      then s
      else (let extranonce2 = format_extranonce2 32 s.extranonce2_size s.extranonce2_counter in
          let counted = record s { extranonce2_counter = u64 (s.extranonce2_counter + 1) } in
          if length extranonce2 == 0
          then counted
          else install_built junk counted m (build_job lib F (template_of s extranonce2)))

  -- `rebuild_miner_job`: its result is not looked at. `junk` is what the local array of the
  -- compression in `miner_set_job` holds.
  unfoldable pub rebuild_miner_job : List ℕ → Session lib F.Double → Session lib F.Double
  unfolding rebuild_with
  rebuild_miner_job junk s = rebuild_with junk s s.miner

  -- `maybe_roll_extranonce`
  unfoldable pub maybe_roll_extranonce : List ℕ → Session lib F.Double → Session lib F.Double
  unfolding rebuild_miner_job
  maybe_roll_extranonce junk s = elim s.miner [
    | none ↦ s
    | some m ↦
        let (exhausted, m') = take_nonce_exhausted m in
        let taken = record s { miner = some m' } in
        if exhausted then rebuild_miner_job junk taken else taken
  ]

  -- `register_pending_share`
  unfoldable pub register_pending_share :
      Session lib F.Double → ℕ → Share F.Double → F.Double → Session lib F.Double
  register_pending_share s id share now = record s {
    table = register s.table id share.difficulty now;
    last_share_difficulty = share.difficulty;
    best_share_difficulty =
        if F.below s.best_share_difficulty share.difficulty
        then share.difficulty
        else s.best_share_difficulty;
  }

  -- `complete_pending_share`
  unfoldable pub complete_pending_share :
      Session lib F.Double → ℕ → Bool → F.Double → Session lib F.Double
  complete_pending_share s id accepted now =
      let (found, table) = complete s.table id in
      record s {
        table = table;
        last_result_accepted = some accepted;
        last_result_difficulty = elim found [ none ↦ F.of_nat 0 | some p ↦ p.difficulty ];
        last_result_elapsed = elim found [
          | none ↦ F.of_nat 0
          | some p ↦ F.minus now p.submitted_at
        ];
      }

  -- One turn of the loop of `flush_shares`: `sent` says whether the line with the id was sent. The
  -- result says whether the loop goes on.
  unfoldable pub flush_share :
      Session lib F.Double → ℕ → Bool → F.Double → Bool × Session lib F.Double
  unfolding register_pending_share
  flush_share s id sent now = elim s.miner [
    | none ↦ (false, s)
    | some m ↦
        let (found, share, m') = pop_share m in
        let popped = record s { miner = some m' } in
        if not found then (false, popped) else elim share [
          | none ↦ (false, popped)
          | some share ↦
              if not sent
              then (false, popped)
              else (let noted = register_pending_share popped id share now in
                  (true, record noted { submit_count = u64 (noted.submit_count + 1) }))
        ]
  ]

  -- `stratum_state_init`, and the miner that `stratum_run_client` stores.
  unfoldable pub session_init : Option (Miner (Midstate lib) F.Double) → Session lib F.Double
  unfolding no_pending
  session_init miner = record {
    extranonce1 = [];
    current_job_id = [];
    current_ntime = [];
    template_job_id = [];
    template_prevhash = [];
    template_coinb1 = [];
    template_coinb2 = [];
    template_version = [];
    template_nbits = [];
    template_ntime = [];
    template_merkle = [];
    template_valid = false;
    extranonce2_size = 4;
    difficulty = F.of_nat 1;
    last_share_difficulty = F.of_nat 0;
    best_share_difficulty = F.of_nat 0;
    last_result_difficulty = F.of_nat 0;
    last_result_elapsed = F.of_nat 0;
    last_result_accepted = none;
    notify_count = 0;
    submit_count = 0;
    accept_count = 0;
    reject_count = 0;
    subscribed = false;
    authorized = false;
    miner = miner;
    extranonce2_counter = 1;
    table = no_pending (F.of_nat 0);
  }
