-- ===== src/Tests/Session.antt =====
-- Instances of the theorems on the session with a pool.
use btcrig.Base.{
  ℕ, ◌+◌, ◌-◌, ◌*◌, ◌/◌, ◌%◌, ◌^◌, ◌≡◌, refl, true, false, none, some, [], ◌∷◌, arith, ltb, leb,
  ◌==◌, if◌then◌else◌, length, replicate,
}
use btcrig.CString.{same_text}
use btcrig.Sha256d.OpenSsl.{OpenSsl}
use btcrig.Job.{Doubles}
use btcrig.Stratum.{PendingShare, pending_shares}
use btcrig.Stratum.Json.{Signed, Json}
use btcrig.Stratum.Pending.{PendingTable, register, complete, no_pending}
use btcrig.Stratum.Pending.Table.{IsSound, register-IsSound, complete-IsSound, complete-register}
use btcrig.Stratum.Session.{Session}
use btcrig.Stratum.Handlers.{key_method, key_params, key_mining_notify, process_line}
use btcrig.Stratum.Handlers.Fit.{IsFit}
use btcrig.Stratum.Handlers.Lines.{process_line-IsFit}

abbrev pub whole_numbers : Doubles
whole_numbers = record {
  Double = ℕ;
  of_nat = λ n. n;
  infinity = 0;
  plus = λ a b. a + b;
  times = λ a b. a * b;
  over = λ a b. a / b;
  minus = λ a b. a - b;
  at_most = λ a b. leb a b;
  below = λ a b. ltb a b;
  to_u32 = λ a. a % 2 ^ 32;
}

abbrev pub length_lib : OpenSsl
length_lib = record {
  Ctx = Unit;
  words = λ c. [];
  init = tt;
  update = λ c block. tt;
  transform = λ c block. tt;
  sha256 = λ message. replicate 32 (length message);
}

-- Every line is a mining.notify: value 0 is the object, 1 its method, 2 its params, and those have
-- nine elements, each the string "7".
abbrev pub notify_only : Json ℕ
notify_only = record {
  Value = ℕ;
  loads = λ line. some 0;
  member = λ v key.
      if same_text key key_method
      then some 1
      else if same_text key key_params
      then some 2
      else none;
  elements = λ v. if v == 2 then some (replicate 9 3) else none;
  string_value = λ v. if v == 1 then some key_mining_notify else some (b'7' ∷ []);
  integer_value = λ v. none;
  number_value = λ v. none;
  is_true = λ v. false;
  is_null = λ v. false;
}

abbrev pub no_shares : PendingTable ℕ
no_shares = record {
  pending = replicate 64 (record { id = 0; active = false; difficulty = 0; submitted_at = 0 });
  pending_count = 0;
}

no_shares-no_pending : no_shares ≡ no_pending 0
unfolding no_pending
no_shares-no_pending = refl

no_shares-IsSound : IsSound no_shares
no_shares-IsSound = record { size = refl; counted = refl; unique = λ id. omega arith }

abbrev pub fresh : Session length_lib ℕ
fresh = record {
  extranonce1 = [];
  current_job_id = [];
  current_ntime = [];
  template_job_id = [];
  template_prevhash = [];
  template_coinb1 = [];
  template_coinb2 = [];
  template_version = [];
  template_nbits = [];
  template_ntime = [];
  template_merkle = [];
  template_valid = false;
  extranonce2_size = 4;
  difficulty = 1;
  last_share_difficulty = 0;
  best_share_difficulty = 0;
  last_result_difficulty = 0;
  last_result_elapsed = 0;
  last_result_accepted = none;
  notify_count = 0;
  submit_count = 0;
  accept_count = 0;
  reject_count = 0;
  subscribed = false;
  authorized = false;
  miner = none;
  extranonce2_counter = 1;
  table = no_shares;
}

fresh-IsFit : IsFit fresh
fresh-IsFit = record {
  strings = omega arith;
  branches = omega arith;
  rows = tt;
  table = no_shares-IsSound;
}

registered-IsSound : IsSound (register no_shares 4 9 100)
registered-IsSound = register-IsSound no_shares 4 9 100 no_shares-IsSound

complete-IsSound_example : IsSound (complete (register no_shares 4 9 100) 4).1
complete-IsSound_example = complete-IsSound (register no_shares 4 9 100) 4 registered-IsSound

complete-register_example :
    (complete (register no_shares 4 9 100) 4).0
    ≡ some (record { id = 4; active = true; difficulty = 9; submitted_at = 100 })
complete-register_example = complete-register no_shares 4 9 100 no_shares-IsSound

-- The template of the line is kept.
template_kept :
    (process_line length_lib whole_numbers notify_only [] fresh [] 0).1.template_prevhash
    ≡ b'7' ∷ []
unfolding process_line btcrig.Stratum.Json.parameter btcrig.CString.copy_checked
    btcrig.Stratum.Json.string_or_empty
template_kept = refl

process_line-IsFit_example :
    IsFit (process_line length_lib whole_numbers notify_only [] fresh [] 0).1
process_line-IsFit_example =
    process_line-IsFit length_lib whole_numbers notify_only [] fresh [] 0 fresh-IsFit
