-- ===== src/Stratum/Handlers/Templates.antt =====
-- The strings and branches that handle_notify stores fit their arrays.
use btcrig.Base.{
  if-keeps, ℕ, suc, ◌+◌, ◌≤◌, ◌<◌, ◌≡◌, ap, inl, inr, Bool, true, not, Option, some, List, [], ◌∷◌,
  ◌++◌, arith, Option-cases, length, take, length-append, length-take, All-append, ◌>>=◌,
}
use btcrig.Sha256d.OpenSsl.{OpenSsl}
use btcrig.Job.{Doubles}
use btcrig.Stratum.{max_merkle_branches, max_coinbase_hex}
use btcrig.Stratum.Json.{Json, parameter, string_or_empty}
use btcrig.Stratum.Session.{Session}
use btcrig.Stratum.Handlers.{store_template, store_branches, store_templates}
use btcrig.Stratum.Handlers.Fit.{IsFit, copy_checked_fits}

module _ (lib : OpenSsl) (F : Doubles) (J : Json F.Double) where
  -- What the put makes of `P`, and what `P` entails, holds after a store.
  store_template_keeps :
      (P Q : Session lib F.Double → Type 0) (size : ℕ) (text : List ℕ)
      (put : Session lib F.Double → List ℕ → Session lib F.Double) (r : Bool × Session lib F.Double)
      → ((s : Session lib F.Double) (t : List ℕ) → length t < size → P s → Q (put s t))
      → ((s : Session lib F.Double) → P s → Q s)
      → P r.1
      → Q (store_template lib F J size text put r).1
  unfolding store_template
  store_template_keeps P Q size text put r keeps weaken h =
      if-keeps {A = Bool × Session lib F.Double} (λ u. Q u.1) (not r.0) (weaken r.1 h)
        (elim (copy_checked_fits size text) [
          | inl e ↦ rw e (weaken r.1 h)
          | inr (e, fits) ↦ rw e (keeps r.1 text fits h)
        ])

  -- The fit with room for `n` more branches.
  unfoldable pub Room : ℕ → Session lib F.Double → Type 0
  Room n s = IsFit s × (length s.template_merkle + n ≤ max_merkle_branches)

  add_branch-Room :
      (n : ℕ) (s : Session lib F.Double) (t : List ℕ)
      → length t < 65
      → Room (suc n) s
      → Room n (record s { template_merkle = s.template_merkle ++ (t ∷ []) })
  unfolding Room
  add_branch-Room n s t fits (h, room) =
      let more : length (s.template_merkle ++ (t ∷ [])) ≡ length s.template_merkle + 1 =
        length-append s.template_merkle (t ∷ []) in
      (
        record {
          strings = h.strings;
          branches = omega arith;
          rows = All-append (λ t. length t < 65) s.template_merkle (t ∷ []) h.rows (fits, tt);
          table = h.table;
        },
        omega arith,
      )

  store_branches-IsFit :
      (vs : List J.Value) (r : Bool × Session lib F.Double)
      → Room (length vs) r.1
      → IsFit (store_branches lib F J vs r).1
  unfolding store_branches Room
  store_branches-IsFit [] r h = h.0
  store_branches-IsFit (v ∷ vs) r h = store_branches-IsFit vs _ (
      store_template_keeps (Room (suc (length vs))) (Room (length vs)) 65
        (string_or_empty J (some v)) _ r
        (λ s t fits room. add_branch-Room (length vs) s t fits room)
        (λ s room. (room.0, omega (arith, room.1))) h)

  pub room :
      {s : Session lib F.Double} → IsFit s → s.template_merkle ≡ [] → Room max_merkle_branches s
  unfolding Room
  room h e = (h, omega (arith, ap length e))

  pub store_templates-IsFit :
      (params : Option J.Value) (s : Session lib F.Double)
      → Room max_merkle_branches s
      → IsFit (store_templates lib F J params s).1
  unfolding store_templates Room
  store_templates-IsFit params s0 h =
      let text = λ (i : ℕ). string_or_empty J (parameter J params i) in
      let R = Room max_merkle_branches in
      let same = λ (s : Session lib F.Double) (r : R s). r in
      let r1 =
        store_template lib F J 128 (text 0) (λ s t. record s { template_job_id = t }) (true, s0) in
      let h1 : R r1.1 =
        store_template_keeps R R 128 (text 0) (λ s t. record s { template_job_id = t }) (true, s0)
          (λ s t fits r. (
            record {
              strings = omega (arith, r.0.strings);
              branches = r.0.branches;
              rows = r.0.rows;
              table = r.0.table;
            },
            r.1,
          ))
          same h in
      let r2 = store_template lib F J 65 (text 1) (λ s t. record s { template_prevhash = t }) r1 in
      let h2 : R r2.1 =
        store_template_keeps R R 65 (text 1) (λ s t. record s { template_prevhash = t }) r1
          (λ s t fits r. (
            record {
              strings = omega (arith, r.0.strings);
              branches = r.0.branches;
              rows = r.0.rows;
              table = r.0.table;
            },
            r.1,
          ))
          same h1 in
      let r3 =
        store_template lib F J max_coinbase_hex (text 2) (λ s t. record s { template_coinb1 = t })
          r2 in
      let h3 : R r3.1 =
        store_template_keeps R R max_coinbase_hex (text 2) (λ s t. record s { template_coinb1 = t })
          r2
          (λ s t fits r. (
            record {
              strings = omega (arith, r.0.strings);
              branches = r.0.branches;
              rows = r.0.rows;
              table = r.0.table;
            },
            r.1,
          ))
          same h2 in
      let r4 =
        store_template lib F J max_coinbase_hex (text 3) (λ s t. record s { template_coinb2 = t })
          r3 in
      let h4 : R r4.1 =
        store_template_keeps R R max_coinbase_hex (text 3) (λ s t. record s { template_coinb2 = t })
          r3
          (λ s t fits r. (
            record {
              strings = omega (arith, r.0.strings);
              branches = r.0.branches;
              rows = r.0.rows;
              table = r.0.table;
            },
            r.1,
          ))
          same h3 in
      let r5 = store_template lib F J 9 (text 5) (λ s t. record s { template_version = t }) r4 in
      let h5 : R r5.1 =
        store_template_keeps R R 9 (text 5) (λ s t. record s { template_version = t }) r4
          (λ s t fits r. (
            record {
              strings = omega (arith, r.0.strings);
              branches = r.0.branches;
              rows = r.0.rows;
              table = r.0.table;
            },
            r.1,
          ))
          same h4 in
      let r6 = store_template lib F J 9 (text 6) (λ s t. record s { template_nbits = t }) r5 in
      let h6 : R r6.1 =
        store_template_keeps R R 9 (text 6) (λ s t. record s { template_nbits = t }) r5
          (λ s t fits r. (
            record {
              strings = omega (arith, r.0.strings);
              branches = r.0.branches;
              rows = r.0.rows;
              table = r.0.table;
            },
            r.1,
          ))
          same h5 in
      let r7 = store_template lib F J 9 (text 7) (λ s t. record s { template_ntime = t }) r6 in
      let h7 : R r7.1 =
        store_template_keeps R R 9 (text 7) (λ s t. record s { template_ntime = t }) r6
          (λ s t fits r. (
            record {
              strings = omega (arith, r.0.strings);
              branches = r.0.branches;
              rows = r.0.rows;
              table = r.0.table;
            },
            r.1,
          ))
          same h6 in
      elim (Option-cases (parameter J params 4 >>= J.elements)) [
        | inl e ↦ rw (store_templates, e) (h7.0)
        | inr (branches, e) ↦
            rw (store_templates, e)
              (store_branches-IsFit (take max_merkle_branches branches) r7
                (h7.0, omega (arith, h7.1, length-take max_merkle_branches branches)))
      ]
