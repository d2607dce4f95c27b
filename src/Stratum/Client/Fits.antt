-- ===== src/Stratum/Client/Fits.antt =====
-- What the loop does to a session without a line keeps what fits, and so does its start.
use btcrig.Base.{
  if-keeps, ℕ, refl, inl, inr, Bool, Option, some, List, arith, Bool-cases, Option-cases,
}
use btcrig.Sha256d.OpenSsl.{OpenSsl}
use btcrig.Sha256d.Midstate.{Midstate}
use btcrig.Miner.{Miner, Share}
use btcrig.Miner.Control.{take_nonce_exhausted, pop_share}
use btcrig.Job.{Doubles}
use btcrig.Stratum.Pending.{no_pending}
use btcrig.Stratum.Pending.Table.{register-IsSound}
use btcrig.Stratum.Session.{
  Session, flush_share, maybe_roll_extranonce, register_pending_share, session_init,
}
use btcrig.Stratum.Handlers.Fit.{IsFit, rebuild_miner_job-IsFit}

module _ (lib : OpenSsl) (F : Doubles) where
  -- Another miner, or another count, keeps what fits.
  pub with_miner :
      (s : Session lib F.Double) (miner : Option (Miner (Midstate lib) F.Double))
      → IsFit s
      → IsFit (record s { miner = miner })
  with_miner s miner h = record {
    strings = h.strings;
    branches = h.branches;
    rows = h.rows;
    table = h.table;
  }

  pub registered :
      (s : Session lib F.Double) (id count : ℕ) (share : Share F.Double) (now : F.Double)
      → IsFit s
      → IsFit (record (register_pending_share lib F s id share now) { submit_count = count })
  unfolding register_pending_share
  registered s id count share now h = record {
    strings = h.strings;
    branches = h.branches;
    rows = h.rows;
    table = register-IsSound s.table id share.difficulty now h.table;
  }

  pub flush_share-IsFit :
      (s : Session lib F.Double) (id : ℕ) (sent : Bool) (now : F.Double)
      → IsFit s
      → IsFit (flush_share lib F s id sent now).1
  unfolding flush_share
  flush_share-IsFit s id sent now h = elim (Option-cases s.miner) [
    | inl none_there ↦ rw (none_there, flush_share) h
    | inr m ↦ elim (Bool-cases (pop_share m.0).0) [
      | inr nothing ↦ rw (m.1, nothing, flush_share) (with_miner s _ h)
      | inl found ↦ elim (Option-cases (pop_share m.0).1) [
        | inl empty_slot ↦ rw (m.1, found, empty_slot, flush_share) (with_miner s _ h)
        | inr share ↦ elim (Bool-cases sent) [
          | inr lost ↦ rw (m.1, found, share.1, lost, flush_share) (with_miner s _ h)
          | inl written ↦
              rw (m.1, found, share.1, written, flush_share)
                (registered (record s { miner = some (pop_share m.0).2 }) id _ share.0 now
                  (with_miner s _ h))
        ]
      ]
    ]
  ]

  pub maybe_roll-IsFit :
      (junk : List ℕ) (s : Session lib F.Double)
      → IsFit s
      → IsFit (maybe_roll_extranonce lib F junk s)
  unfolding maybe_roll_extranonce
  maybe_roll-IsFit junk s h = elim (Option-cases s.miner) [
    | inl none_there ↦ rw (none_there, maybe_roll_extranonce) h
    | inr m ↦
        let taken : Session lib F.Double = record s { miner = some (take_nonce_exhausted m.0).1 } in
        rw (m.1, maybe_roll_extranonce)
          (if-keeps IsFit (take_nonce_exhausted m.0).0
            (rebuild_miner_job-IsFit lib F junk taken (with_miner s _ h)) (with_miner s _ h))
  ]

  pub session_init-IsFit :
      (miner : Option (Miner (Midstate lib) F.Double)) → IsFit (session_init lib F miner)
  unfolding session_init no_pending
  session_init-IsFit miner = record {
    strings = omega arith;
    branches = omega arith;
    rows = tt;
    table = record { size = refl; counted = refl; unique = λ id. omega arith };
  }
