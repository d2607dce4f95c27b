-- ===== src/Stratum/Handlers/Lines.antt =====
-- Whatever lines a pool sends, the strings and the branches that the session stores fit their
-- arrays, and the table of submitted shares stays sound.
use btcrig.Base.{
  if-keeps, ℕ, ◌+◌, refl, inl, inr, Bool, false, Option, none, some, List, [], arith, ltb, leb,
  ◌==◌, Option-cases, length, ◌>>=◌,
}
use btcrig.CString.{same_text, copy_cut}
use btcrig.Sha256d.OpenSsl.{OpenSsl}
use btcrig.Word.{u32, u64}
use btcrig.Job.{Doubles}
use btcrig.Stratum.Json.{Signed, Json, parameter, string_or_empty, holds_true}
use btcrig.Stratum.Session.{Session}
use btcrig.Stratum.Handlers.{
  handle_set_difficulty, store_extranonce1, store_extranonce2_size, handle_set_extranonce,
  handle_notify, handle_method, answer_share, answer_subscribe, has_error, id_of, handle_response,
  process_line, key_mining_set_difficulty, key_mining_notify, key_mining_set_extranonce, key_params,
  key_result, key_id, key_error, key_method,
}
use btcrig.Stratum.Handlers.Fit.{
  IsFit, length-copy_cut, rebuild_miner_job-IsFit, complete_pending_share-IsFit,
}
use btcrig.Stratum.Handlers.Templates.{room, store_templates-IsFit}

module _ (lib : OpenSsl) (F : Doubles) (J : Json F.Double) where
  store_extranonce1-IsFit :
      (s : Session lib F.Double) (text : Option (List ℕ))
      → IsFit s
      → IsFit (store_extranonce1 lib F J s text)
  unfolding store_extranonce1
  store_extranonce1-IsFit s none h = h
  store_extranonce1-IsFit s (some text) h = record {
    strings = omega (arith, h.strings, length-copy_cut 127 text);
    branches = h.branches;
    rows = h.rows;
    table = h.table;
  }

  store_extranonce2_size-IsFit :
      (s : Session lib F.Double) (size : Option Signed)
      → IsFit s
      → IsFit (store_extranonce2_size lib F J s size)
  unfolding store_extranonce2_size
  store_extranonce2_size-IsFit s none h = h
  store_extranonce2_size-IsFit s (some size) h = record {
    strings = h.strings;
    branches = h.branches;
    rows = h.rows;
    table = h.table;
  }

  handle_set_difficulty-IsFit :
      (junk : List ℕ) (s : Session lib F.Double) (params : Option J.Value)
      → IsFit s
      → IsFit (handle_set_difficulty lib F J junk s params)
  unfolding handle_set_difficulty
  handle_set_difficulty-IsFit junk s params h =
      elim (Option-cases (parameter J params 0 >>= J.number_value)) [
        | inl e ↦ rw (handle_set_difficulty, e) h
        | inr (value, e) ↦
            let fit : IsFit (record s { difficulty = value }) = record {
              strings = h.strings;
              branches = h.branches;
              rows = h.rows;
              table = h.table;
            } in
            rw (handle_set_difficulty, e)
              (if-keeps IsFit s.template_valid (rebuild_miner_job-IsFit lib F junk _ fit) fit)
      ]

  handle_set_extranonce-IsFit :
      (junk : List ℕ) (s : Session lib F.Double) (params : Option J.Value)
      → IsFit s
      → IsFit (handle_set_extranonce lib F J junk s params)
  unfolding handle_set_extranonce
  handle_set_extranonce-IsFit junk s params h =
      let sized =
        store_extranonce2_size-IsFit _ (parameter J params 1 >>= J.integer_value)
          (store_extranonce1-IsFit s (parameter J params 0 >>= J.string_value) h) in
      if-keeps IsFit _ (rebuild_miner_job-IsFit lib F junk _ sized) sized

  handle_notify-IsFit :
      (junk : List ℕ) (s : Session lib F.Double) (params : Option J.Value)
      → IsFit s
      → IsFit (handle_notify lib F J junk s params)
  unfolding handle_notify
  handle_notify-IsFit junk s params h = elim (Option-cases (params >>= J.elements)) [
    | inl e ↦ rw (handle_notify, e) h
    | inr (vs, e) ↦
        let fit : IsFit (record s {
          notify_count = u64 (s.notify_count + 1);
          current_job_id = copy_cut 128 (string_or_empty J (parameter J params 0));
          current_ntime = copy_cut 16 (string_or_empty J (parameter J params 7));
          template_valid = false;
          template_merkle = [];
        }) =
          record {
            strings = omega (
              arith,
              h.strings,
              length-copy_cut 127 (string_or_empty J (parameter J params 0)),
              length-copy_cut 15 (string_or_empty J (parameter J params 7)),
            );
            branches = omega arith;
            rows = tt;
            table = h.table;
          } in
        let stored = store_templates-IsFit lib F J params _ (room lib F J fit refl) in
        rw (handle_notify, e)
          (if-keeps IsFit (ltb (length vs) 9) h (
            if-keeps IsFit _ stored (
              rebuild_miner_job-IsFit lib F junk _ (record {
                strings = stored.strings;
                branches = stored.branches;
                rows = stored.rows;
                table = stored.table;
              }))))
  ]

  handle_method-IsFit :
      (junk : List ℕ) (s : Session lib F.Double) (root method : J.Value)
      → IsFit s
      → IsFit (handle_method lib F J junk s root method)
  unfolding handle_method
  handle_method-IsFit junk s root method h =
      let params = J.member root key_params in
      elim (Option-cases (J.string_value method)) [
        | inl e ↦ rw (handle_method, e) h
        | inr (name, e) ↦
            rw (handle_method, e)
              (if-keeps IsFit (same_text name key_mining_set_difficulty)
                (handle_set_difficulty-IsFit junk s params h)
                (if-keeps IsFit (same_text name key_mining_notify)
                  (handle_notify-IsFit junk s params h)
                  (if-keeps IsFit (same_text name key_mining_set_extranonce)
                    (handle_set_extranonce-IsFit junk s params h) h)))
      ]

  answer_share-IsFit :
      (s : Session lib F.Double) (id : ℕ) (accepted : Bool) (now : F.Double)
      → IsFit s
      → IsFit (answer_share lib F J s id accepted now)
  unfolding answer_share
  answer_share-IsFit s id accepted now h =
      let fit = complete_pending_share-IsFit lib F s (u32 id) accepted now h in
      if-keeps IsFit accepted
        (record {
          strings = fit.strings;
          branches = fit.branches;
          rows = fit.rows;
          table = fit.table;
        })
        (record {
          strings = fit.strings;
          branches = fit.branches;
          rows = fit.rows;
          table = fit.table;
        })

  answer_subscribe-IsFit :
      (s : Session lib F.Double) (result : Option J.Value)
      → IsFit s
      → IsFit (answer_subscribe lib F J s result)
  unfolding answer_subscribe
  answer_subscribe-IsFit s result h = elim (Option-cases (result >>= J.elements)) [
    | inl e ↦ rw (answer_subscribe, e) h
    | inr (vs, e) ↦
        let fit =
          store_extranonce2_size-IsFit _ (parameter J result 2 >>= J.integer_value)
            (store_extranonce1-IsFit s (parameter J result 1 >>= J.string_value) h) in
        rw (answer_subscribe, e)
          (if-keeps IsFit (ltb (length vs) 3) h (record {
            strings = fit.strings;
            branches = fit.branches;
            rows = fit.rows;
            table = fit.table;
          }))
  ]

  handle_response-IsFit :
      (s : Session lib F.Double) (root : J.Value) (now : F.Double)
      → IsFit s
      → IsFit (handle_response lib F J s root now)
  unfolding handle_response
  handle_response-IsFit s root now h =
      let result = J.member root key_result in
      elim (Option-cases (id_of (J.member root key_id >>= J.integer_value))) [
        | inl e ↦ rw (handle_response, e) h
        | inr (id, e) ↦
            rw (handle_response, e)
              (if-keeps IsFit (has_error lib F J (J.member root key_error))
                (if-keeps IsFit (leb 4 id) (answer_share-IsFit s id false now h) h)
                (if-keeps IsFit (id == 1) (answer_subscribe-IsFit s result h) (
                  if-keeps IsFit (id == 2)
                    (record {
                      strings = h.strings;
                      branches = h.branches;
                      rows = h.rows;
                      table = h.table;
                    })
                    (if-keeps IsFit (leb 4 id) (answer_share-IsFit s id (holds_true J result) now h)
                      h))))
      ]

  -- Whatever line a pool sends, every string and branch that is stored fits its array, and the
  -- table of submitted shares stays sound.
  pub process_line-IsFit :
      (junk : List ℕ) (s : Session lib F.Double) (line : List ℕ) (now : F.Double)
      → IsFit s
      → IsFit (process_line lib F J junk s line now).1
  unfolding process_line
  process_line-IsFit junk s line now h = elim (Option-cases (J.loads line)) [
    | inl e ↦ rw (process_line, e) h
    | inr (root, e) ↦ elim (Option-cases (J.member root key_method)) [
      | inl e' ↦ rw (process_line, e, e') (handle_response-IsFit s root now h)
      | inr (method, e') ↦ rw (process_line, e, e') (handle_method-IsFit junk s root method h)
    ]
  ]
