-- ===== src/Stratum/Handlers/Fit.antt =====
-- What fits: the strings of a session in their arrays. A rebuild of the job and a completed share
-- keep it.
use btcrig.Base.{
  if-keeps, ℕ, suc, ◌+◌, ◌-◌, ◌≤◌, ◌<◌, ◌≡◌, refl, ◌⊎◌, inl, inr, Bool, not, ◌||◌, Option, none,
  some, List, arith, leb, ◌==◌, Bool-cases, length, All, length-take,
}
use btcrig.CString.{copy_checked, copy_cut}
use btcrig.Sha256d.OpenSsl.{OpenSsl}
use btcrig.Word.{u64}
use btcrig.Sha256d.Midstate.{Midstate}
use btcrig.Miner.{PublicJob, Miner}
use btcrig.Job.{Doubles, build_job, format_extranonce2}
use btcrig.Stratum.{max_merkle_branches, max_coinbase_hex}
use btcrig.Stratum.Pending.Table.{IsSound, complete-IsSound}
use btcrig.Stratum.Session.{
  Session, template_of, install_built, rebuild_with, rebuild_miner_job, complete_pending_share,
}

-- Each string fits its array with the final zero, and each branch its row.
pub record IsFit {lib : OpenSsl} {D : Type 0} (s : Session lib D) : Type 0 where
  pub strings :
      (length s.extranonce1 < 128)
      × (length s.current_job_id < 128)
      × (length s.current_ntime < 16)
      × (length s.template_job_id < 128)
      × (length s.template_prevhash < 65)
      × (length s.template_coinb1 < max_coinbase_hex)
      × (length s.template_coinb2 < max_coinbase_hex)
      × (length s.template_version < 9)
      × (length s.template_nbits < 9)
      × (length s.template_ntime < 9)
  pub branches : length s.template_merkle ≤ max_merkle_branches
  pub rows : All (λ t. length t < 65) s.template_merkle
  pub table : IsSound s.table

pub copy_checked_fits :
    (size : ℕ) (text : List ℕ)
    → (copy_checked size text ≡ none)
      ⊎ ((copy_checked size text ≡ some text) × (length text < size))
unfolding copy_checked
copy_checked_fits size text = elim (Bool-cases (leb size (length text))) [
  | inl e ↦ inl (rw e refl)
  | inr e ↦ inr (rw e refl, ground arith)
]

pub length-copy_cut : (size : ℕ) (text : List ℕ) → length (copy_cut (suc size) text) < suc size
unfolding copy_cut
length-copy_cut size text = omega (arith, length-take (suc size - 1) text)

module _ (lib : OpenSsl) (F : Doubles) where
  install_built-IsFit :
      (junk : List ℕ) (s : Session lib F.Double) (m : Miner (Midstate lib) F.Double)
      (built : Option PublicJob)
      → IsFit s
      → IsFit (install_built lib F junk s m built)
  unfolding install_built
  install_built-IsFit junk s m none h = h
  install_built-IsFit junk s m (some job) h = record {
    strings = h.strings;
    branches = h.branches;
    rows = h.rows;
    table = h.table;
  }

  rebuild_with-IsFit :
      (junk : List ℕ) (s : Session lib F.Double) (miner : Option (Miner (Midstate lib) F.Double))
      → IsFit s
      → IsFit (rebuild_with lib F junk s miner)
  unfolding rebuild_with
  rebuild_with-IsFit junk s none h = h
  rebuild_with-IsFit junk s (some m) h =
      let extranonce2 = format_extranonce2 32 s.extranonce2_size s.extranonce2_counter in
      let counted : Session lib F.Double = record s {
        extranonce2_counter = u64 (s.extranonce2_counter + 1);
      } in
      let fit : IsFit counted = record {
        strings = h.strings;
        branches = h.branches;
        rows = h.rows;
        table = h.table;
      } in
      if-keeps IsFit
        (not s.template_valid || (length s.extranonce1 == 0) || (s.extranonce2_size == 0)) h
        (if-keeps IsFit (length extranonce2 == 0) fit (
          install_built-IsFit junk counted m (build_job lib F (template_of lib F s extranonce2))
            fit))

  pub rebuild_miner_job-IsFit :
      (junk : List ℕ) (s : Session lib F.Double) → IsFit s → IsFit (rebuild_miner_job lib F junk s)
  unfolding rebuild_miner_job
  rebuild_miner_job-IsFit junk s h = rebuild_with-IsFit junk s s.miner h

  pub complete_pending_share-IsFit :
      (s : Session lib F.Double) (id : ℕ) (accepted : Bool) (now : F.Double)
      → IsFit s
      → IsFit (complete_pending_share lib F s id accepted now)
  unfolding complete_pending_share
  complete_pending_share-IsFit s id accepted now h = record {
    strings = h.strings;
    branches = h.branches;
    rows = h.rows;
    table = complete-IsSound s.table id h.table;
  }
