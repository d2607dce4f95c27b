-- ===== src/Stratum/Handlers.antt =====
-- The handlers of the lines of a pool, in stratum.c: handle_response, handle_set_difficulty,
-- handle_set_extranonce, handle_notify, handle_method and stratum_process_line. A method that only
-- prints leaves the session as it is.
pub mod Fit
pub mod Templates
pub mod Lines
use btcrig.Base.{
  ℕ, zero, suc, ◌+◌, ◌-◌, ◌*◌, ◌/◌, ◌%◌, ◌^◌, ◌≤◌, ◌<◌, min, max, bit_and, bit_or, bit_xor, ◌≡◌,
  refl, sym, ap, ap₂, ◌∙◌, subst, ◌≢◌, ◌↔◌, ◌⊎◌, inl, inr, Bool, true, false, not, ◌&&◌, ◌||◌,
  Option, none, some, List, [], ◌∷◌, ◌++◌, map, arith, ltb, leb, ◌==◌, if◌then◌else◌, ltb→lt,
  lt→ltb, leb→le, ==_iff, tests, Bool-cases, Option-cases, length, get_or, set, take, drop,
  replicate, All, length-append, length-set, length-take, length-drop, length-replicate,
  take-append-drop, take_append, drop_append, get_or-set_self, get_or-set_ne, get_or-take,
  get_or_ext, All-append, All-take, All-drop, All-get_or, length-map, ◌>>=◌,
}
use btcrig.Word.{u32, u64}
use btcrig.CString.{codes, same_text, copy_checked, copy_cut}
use btcrig.Sha256d.OpenSsl.{OpenSsl}
use btcrig.Job.{Doubles}
use btcrig.Stratum.{max_merkle_branches, max_coinbase_hex}
use btcrig.Stratum.Json.{
  Signed, negative, whole, Json, parameter, string_or_empty, holds_true, size_of,
}
use btcrig.Stratum.Session.{Session, rebuild_miner_job, complete_pending_share}

abbrev pub key_id : List ℕ
key_id = codes "id"

abbrev pub key_result : List ℕ
key_result = codes "result"

abbrev pub key_error : List ℕ
key_error = codes "error"

abbrev pub key_method : List ℕ
key_method = codes "method"

abbrev pub key_params : List ℕ
key_params = codes "params"

abbrev pub key_mining_set_difficulty : List ℕ
key_mining_set_difficulty = codes "mining.set_difficulty"

abbrev pub key_mining_notify : List ℕ
key_mining_notify = codes "mining.notify"

abbrev pub key_mining_set_extranonce : List ℕ
key_mining_set_extranonce = codes "mining.set_extranonce"

-- An id that is not an integer is -1, and an id below 0 answers to nothing.
unfoldable pub id_of : Option Signed → Option ℕ
id_of none = none
id_of (some (negative n)) = none
id_of (some (whole n)) = some n

module _ (lib : OpenSsl) (F : Doubles) (J : Json F.Double) where
  unfoldable pub handle_set_difficulty :
      List ℕ → Session lib F.Double → Option J.Value → Session lib F.Double
  unfolding rebuild_miner_job
  handle_set_difficulty junk s params = elim (parameter J params 0 >>= J.number_value) [
    | none ↦ s
    | some value ↦
        let s' = record s { difficulty = value } in
        if s.template_valid then rebuild_miner_job lib F junk s' else s'
  ]

  unfoldable pub store_extranonce1 : Session lib F.Double → Option (List ℕ) → Session lib F.Double
  store_extranonce1 s none = s
  store_extranonce1 s (some text) = record s { extranonce1 = copy_cut 128 text }

  unfoldable pub store_extranonce2_size :
      Session lib F.Double → Option Signed → Session lib F.Double
  store_extranonce2_size s none = s
  store_extranonce2_size s (some size) = record s { extranonce2_size = size_of size }

  unfoldable pub handle_set_extranonce :
      List ℕ → Session lib F.Double → Option J.Value → Session lib F.Double
  unfolding rebuild_miner_job store_extranonce1 store_extranonce2_size
  handle_set_extranonce junk s params =
      let named = store_extranonce1 s (parameter J params 0 >>= J.string_value) in
      let sized = store_extranonce2_size named (parameter J params 1 >>= J.integer_value) in
      if sized.template_valid then rebuild_miner_job lib F junk sized else sized

  -- One `store_template_string` of the chain; a flag that is false has ended it.
  unfoldable pub store_template :
      ℕ
      → List ℕ
      → (Session lib F.Double → List ℕ → Session lib F.Double)
      → Bool × Session lib F.Double
      → Bool × Session lib F.Double
  store_template size text put r =
      if not r.0
      then r
      else elim (copy_checked size text) [ none ↦ (false, r.1) | some t ↦ (true, put r.1 t) ]

  -- The loop over the branches of the Merkle tree.
  pub store_branches : List J.Value → Bool × Session lib F.Double → Bool × Session lib F.Double
  unfolding store_template
  store_branches [] r = r
  store_branches (v ∷ vs) r = store_branches vs (
      store_template 65 (string_or_empty J (some v))
        (λ s t. record s { template_merkle = s.template_merkle ++ (t ∷ []) }) r)

  -- The seven strings of a template, and its branches.
  unfoldable pub store_templates :
      Option J.Value → Session lib F.Double → Bool × Session lib F.Double
  unfolding store_template store_branches
  store_templates params s0 =
      let text = λ (i : ℕ). string_or_empty J (parameter J params i) in
      let r1 = store_template 128 (text 0) (λ s t. record s { template_job_id = t }) (true, s0) in
      let r2 = store_template 65 (text 1) (λ s t. record s { template_prevhash = t }) r1 in
      let r3 =
        store_template max_coinbase_hex (text 2) (λ s t. record s { template_coinb1 = t }) r2 in
      let r4 =
        store_template max_coinbase_hex (text 3) (λ s t. record s { template_coinb2 = t }) r3 in
      let r5 = store_template 9 (text 5) (λ s t. record s { template_version = t }) r4 in
      let r6 = store_template 9 (text 6) (λ s t. record s { template_nbits = t }) r5 in
      let r7 = store_template 9 (text 7) (λ s t. record s { template_ntime = t }) r6 in
      elim (parameter J params 4 >>= J.elements) [
        | none ↦ r7
        | some branches ↦ store_branches (take max_merkle_branches branches) r7
      ]

  unfoldable pub handle_notify :
      List ℕ → Session lib F.Double → Option J.Value → Session lib F.Double
  unfolding rebuild_miner_job store_templates
  handle_notify junk s params = elim (params >>= J.elements) [
    | none ↦ s
    | some vs ↦
        if ltb (length vs) 9
        then s
        else (let cleared = record s {
          notify_count = u64 (s.notify_count + 1);
          current_job_id = copy_cut 128 (string_or_empty J (parameter J params 0));
          current_ntime = copy_cut 16 (string_or_empty J (parameter J params 7));
          template_valid = false;
          template_merkle = [];
        } in
            let (whole_template, stored) = store_templates params cleared in
            if not whole_template
            then stored
            else rebuild_miner_job lib F junk (record stored { template_valid = true }))
  ]

  unfoldable pub handle_method :
      List ℕ → Session lib F.Double → J.Value → J.Value → Session lib F.Double
  unfolding handle_set_difficulty handle_notify handle_set_extranonce
  handle_method junk s root method =
      let params = J.member root key_params in
      elim (J.string_value method) [
        | none ↦ s
        | some name ↦
            if same_text name key_mining_set_difficulty
            then handle_set_difficulty junk s params
            else if same_text name key_mining_notify
            then handle_notify junk s params
            else if same_text name key_mining_set_extranonce
            then handle_set_extranonce junk s params
            else s
      ]

  -- The answer with an id of 4 or more: one to a submitted share, whose id is the int `(int)id`. No int
  -- of the table is below 0, so the 32 bits tell them apart.
  unfoldable pub answer_share : Session lib F.Double → ℕ → Bool → F.Double → Session lib F.Double
  unfolding complete_pending_share
  answer_share s id accepted now =
      let done = complete_pending_share lib F s (u32 id) accepted now in
      if accepted
      then record done { accept_count = u64 (done.accept_count + 1) }
      else record done { reject_count = u64 (done.reject_count + 1) }

  -- The answer to `mining.subscribe`.
  unfoldable pub answer_subscribe : Session lib F.Double → Option J.Value → Session lib F.Double
  unfolding store_extranonce1 store_extranonce2_size
  answer_subscribe s result = elim (result >>= J.elements) [
    | none ↦ s
    | some vs ↦
        if ltb (length vs) 3
        then s
        else (let named = store_extranonce1 s (parameter J result 1 >>= J.string_value) in
            let sized = store_extranonce2_size named (parameter J result 2 >>= J.integer_value) in
            record sized { subscribed = true })
  ]

  -- `error != NULL && !json_is_null(error)`
  unfoldable pub has_error : Option J.Value → Bool
  has_error none = false
  has_error (some v) = not (J.is_null v)

  unfoldable pub handle_response : Session lib F.Double → J.Value → F.Double → Session lib F.Double
  unfolding answer_share answer_subscribe has_error id_of
  handle_response s root now =
      let result = J.member root key_result in
      elim (id_of (J.member root key_id >>= J.integer_value)) [
        | none ↦ s
        | some id ↦
            if has_error (J.member root key_error)
            then (if leb 4 id then answer_share s id false now else s)
            else if id == 1
            then answer_subscribe s result
            else if id == 2
            then record s { authorized = holds_true J result }
            else if leb 4 id
            then answer_share s id (holds_true J result) now
            else s
      ]

  -- `stratum_process_line`: the flag is false for the -1 of a line that is no JSON.
  unfoldable pub process_line :
      List ℕ → Session lib F.Double → List ℕ → F.Double → Bool × Session lib F.Double
  unfolding handle_method handle_response
  process_line junk s line now = elim (J.loads line) [
    | none ↦ (false, s)
    | some root ↦ (
      true,
      elim (J.member root key_method) [
        | none ↦ handle_response s root now
        | some method ↦ handle_method junk s root method
      ],
    )
  ]
