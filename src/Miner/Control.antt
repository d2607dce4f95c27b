-- ===== src/Miner/Control.antt =====
-- What the session of stratum.c does to the miner: miner_set_job, miner_set_paused,
-- miner_take_nonce_exhausted, miner_pop_share and the two parts of miner_stop, all of miner.c.
-- Every caller's pointer is checked before, so the early returns on NULL are left out.
use btcrig.Base.{
  ℕ, zero, suc, ◌+◌, Bool, true, false, not, ◌&&◌, Option, List, [], ◌∷◌, ltb, if◌then◌else◌, take,
  drop,
}
use btcrig.Word.{u64}
use btcrig.ShareQueue.{clear, pop}
use btcrig.Sha256d.OpenSsl.{OpenSsl}
use btcrig.Sha256d.Compress.{load_block}
use btcrig.Sha256d.Midstate.{Midstate, midstate_prepare}
use btcrig.Target.{load_target}
use btcrig.Miner.{PublicJob, ActiveJob, Share, Miner}

-- The local `active` of `miner_set_job`, before the lock: `junk` is what the local array of the
-- compression holds.
unfoldable pub prepare_job : (lib : OpenSsl) → List ℕ → PublicJob → ActiveJob (Midstate lib)
prepare_job lib junk job = record {
  public_job = job;
  midstate = midstate_prepare lib junk (take 64 job.header);
  tail_words = load_block 4 (drop 64 job.header);
  target_words = load_target 8 job.target;
  pause_epoch = 0;
  valid = true;
}

module _ {M D : Type 0} where
  -- The section of `miner_set_job`, with `active` prepared.
  unfoldable pub install_job : Miner M D → ActiveJob M → Miner M D
  install_job m active = record m {
    job = record active {
      public_job = record (active.public_job) { seq = u64 (m.job.public_job.seq + 1) };
    };
    next_nonce = 0;
    nonce_exhausted = false;
    queue = clear m.queue;
  }

  -- `miner_set_paused`: a pause of a running miner opens a new epoch.
  unfoldable pub set_paused : Miner M D → Bool → Miner M D
  set_paused m paused =
      if not m.paused && paused
      then record m { pause_epoch = u64 (m.pause_epoch + 1); paused = paused }
      else record m { paused = paused }

  -- `miner_take_nonce_exhausted`: the flag is read and reset.
  unfoldable pub take_nonce_exhausted : Miner M D → Bool × Miner M D
  take_nonce_exhausted m = (m.nonce_exhausted, record m { nonce_exhausted = false })

  -- `miner_pop_share`
  unfoldable pub pop_share : Miner M D → Bool × Option (Share D) × Miner M D
  pop_share m =
      let (found, share, queue) = pop m.queue in (found, share, record m { queue = queue })

  -- The locked section of `miner_stop`.
  unfoldable pub request_stop : Miner M D → Miner M D
  request_stop m = if m.started then record m { stop = true } else m

-- `opencl_devices[i] = NULL` for the first `n` devices.
unfoldable pub drop_devices : ℕ → List Bool → List Bool
drop_devices zero devices = devices
drop_devices (suc n) [] = []
drop_devices (suc n) (device ∷ devices) = false ∷ drop_devices n devices

-- The rest of `miner_stop`, when every thread has been joined.
unfoldable pub finish_stop : {M D : Type 0} → Miner M D → Miner M D
unfolding drop_devices
finish_stop m = record m {
  opencl_devices = drop_devices m.opencl_started m.opencl_devices;
  opencl_started = 0;
  cuda_device = if ltb 0 m.cuda_started then false else m.cuda_device;
  cuda_started = 0;
  started = false;
}

-- `miner_set_job`.
unfoldable pub set_job :
    {D : Type 0} (lib : OpenSsl)
    → List ℕ
    → Miner (Midstate lib) D
    → PublicJob
    → Miner (Midstate lib) D
unfolding prepare_job install_job
set_job lib junk m job = install_job m (prepare_job lib junk job)
