-- ===== src/Stratum/Pending/Table.antt =====
-- The table counts its active entries, and no id has two: every operation keeps that, and a
-- registered share is the one that its completion finds.
use mathlib.Core.Option.{none-ne-some}
use btcrig.Base.{
  ℕ, zero, suc, ◌+◌, ◌≤◌, ◌<◌, ◌≡◌, refl, ap, ◌∙◌, subst, inl, inr, true, ◌&&◌, some, List, [], ◌∷◌,
  arith, ◌==◌, Bool-cases, Option-cases, length, set, take, length-set,
}
use btcrig.Stratum.{PendingShare, pending_shares}
use btcrig.Stratum.Pending.{
  PendingTable, chosen_slot, is_active_at, register, close_first, complete,
}
use btcrig.Stratum.Pending.Search.{
  one_if, active_count, with_id, active_count-set, with_id-set, with_id-take, chosen_slot-lt,
  chosen_slot-cases,
}

module _ {D : Type 0} where
  pub record IsSound (t : PendingTable D) : Type 0 where
    pub size : length t.pending ≡ pending_shares
    pub counted : t.pending_count ≡ active_count t.pending
    pub unique : (id : ℕ) → with_id id t.pending ≤ 1

  -- The new entry is the only one with its id.
  register_unique :
      (id : ℕ) (ps : List (PendingShare D)) (p : PendingShare D)
      → chosen_slot id ps < length ps
      → with_id id ps ≤ 1
      → (p.active && p.id == id) ≡ true
      → with_id id (set ps (chosen_slot id ps) p) ≤ 1
  register_unique id ps p inside once e = elim (chosen_slot-cases id ps) [
    | inl none_there ↦ omega (arith, with_id-set id ps (chosen_slot id ps) p inside, ap one_if e)
    | inr (before, there) ↦
        omega (arith, with_id-set id ps (chosen_slot id ps) p inside, ap one_if e, ap one_if there)
  ]

  -- A registration keeps the table sound.
  pub register-IsSound :
      (t : PendingTable D) (id : ℕ) (difficulty now : D)
      → IsSound t
      → IsSound (register t id difficulty now)
  unfolding register
  register-IsSound t id difficulty now s =
      let slot = chosen_slot id t.pending in
      let p : PendingShare D = record {
        id = id;
        active = true;
        difficulty = difficulty;
        submitted_at = now;
      } in
      let inside : slot < length t.pending =
        omega (arith, s.size, chosen_slot-lt id t.pending s.size) in
      record {
        size = length-set t.pending slot p ∙ s.size;
        counted = elim (Bool-cases (is_active_at slot t.pending)) [
          | inl e ↦
              rw e (omega (arith, s.counted, ap one_if e, active_count-set t.pending slot p inside))
          | inr e ↦
              rw e (omega (arith, s.counted, ap one_if e, active_count-set t.pending slot p inside))
        ];
        unique = λ k. elim (Bool-cases (id == k)) [
          | inl e ↦
              let own : (id == id) ≡ true = ground arith in
              let same : id ≡ k = ground arith in
              subst (λ j. with_id j (set t.pending slot p) ≤ 1) same
                (register_unique id t.pending p inside (s.unique id) own)
          | inr e ↦ omega (arith, s.unique k, with_id-set k t.pending slot p inside, ap one_if e)
        ];
      }

  length-close_first :
      (id : ℕ) (ps : List (PendingShare D)) → length (close_first id ps).1 ≡ length ps
  unfolding close_first
  length-close_first id [] = refl
  length-close_first id (p ∷ ps) = elim (Bool-cases (p.active && p.id == id)) [
    | inl e ↦ rw e refl
    | inr e ↦ rw e (ap suc (length-close_first id ps))
  ]

  with_id-close_first :
      (id k : ℕ) (ps : List (PendingShare D)) → with_id k (close_first id ps).1 ≤ with_id k ps
  unfolding close_first
  with_id-close_first id k [] = omega arith
  with_id-close_first id k (p ∷ ps) = elim (Bool-cases (p.active && p.id == id)) [
    | inl e ↦ rw e (omega arith)
    | inr e ↦ rw e (omega (arith, with_id-close_first id k ps))
  ]

  active_count-close_first :
      (id : ℕ) (ps : List (PendingShare D)) (found : PendingShare D)
      → (close_first id ps).0 ≡ some found
      → active_count (close_first id ps).1 + 1 ≡ active_count ps
  unfolding close_first
  active_count-close_first id [] found h = absurd (none-ne-some _ h)
  active_count-close_first id (p ∷ ps) found h = elim (Bool-cases (p.active && p.id == id)) [
    | inl e ↦ let up : p.active ≡ true = ground arith in rw e (omega (arith, ap one_if up))
    | inr e ↦
        let later : (close_first id ps).0 ≡ some found = rw e at h in
        rw e (omega (arith, active_count-close_first id ps found later))
  ]

  close_first-set :
      (id : ℕ) (ps : List (PendingShare D)) (i : ℕ) (p : PendingShare D)
      → i < length ps
      → with_id id (take i ps) ≡ 0
      → (p.active && p.id == id) ≡ true
      → (close_first id (set ps i p)).0 ≡ some p
  unfolding close_first
  close_first-set id [] i p h before e = absurd (omega arith)
  close_first-set id (q ∷ ps) zero p h before e = rw e refl
  close_first-set id (q ∷ ps) (suc i) p h before e = elim (Bool-cases (q.active && q.id == id)) [
    | inl there ↦ absurd (omega (arith, ap one_if there))
    | inr other ↦ rw other (close_first-set id ps i p (omega arith) (omega arith) e)
  ]

  -- So does a completion, of any id.
  pub complete-IsSound : (t : PendingTable D) (id : ℕ) → IsSound t → IsSound (complete t id).1
  unfolding complete
  complete-IsSound t id s = elim (Option-cases (close_first id t.pending).0) [
    | inl e ↦ rw (complete, e) s
    | inr (p, e) ↦
        rw (complete, e)
          (record {
            size = length-close_first id t.pending ∙ s.size;
            counted = ground (arith, s.counted, active_count-close_first id t.pending p e);
            unique = λ k. omega (arith, s.unique k, with_id-close_first id k t.pending);
          })
  ]

  -- A completion finds the share that was registered last under its id, and with it the difficulty
  -- and the time that were stored.
  pub complete-register :
      (t : PendingTable D) (id : ℕ) (difficulty now : D)
      → IsSound t
      → (complete (register t id difficulty now) id).0
        ≡ some (record { id = id; active = true; difficulty = difficulty; submitted_at = now })
  unfolding register complete
  complete-register t id difficulty now s =
      let p : PendingShare D = record {
        id = id;
        active = true;
        difficulty = difficulty;
        submitted_at = now;
      } in
      let slot = chosen_slot id t.pending in
      let inside : slot < length t.pending =
        omega (arith, s.size, chosen_slot-lt id t.pending s.size) in
      let before : with_id id (take slot t.pending) ≡ 0 = elim (chosen_slot-cases id t.pending) [
        | inl e ↦ omega (arith, with_id-take id slot t.pending)
        | inr (e, there) ↦ e
      ] in
      let own : (id == id) ≡ true = ground arith in
      rw (complete, close_first-set id t.pending slot p inside before own) refl
