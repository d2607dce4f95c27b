-- ===== src/Stratum/Pending/Search.antt =====
-- The search of register_pending_share: how it counts, where it ends, and that it stays in the table.
use btcrig.Base.{
  ℕ, zero, suc, ◌+◌, ◌≤◌, ◌<◌, ◌≡◌, refl, sym, ap, ◌∙◌, subst, ◌⊎◌, inl, inr, Bool, true, false,
  ◌&&◌, Option, none, some, List, [], ◌∷◌, arith, ◌==◌, Bool-cases, length, set, take,
}
use btcrig.Stratum.{PendingShare, pending_shares}
use btcrig.Stratum.Pending.{first_free, slot_or_id, find_slot, chosen_slot, is_active_at}

abbrev pub one_if : Bool → ℕ
one_if true = 1
one_if false = 0

abbrev Below : ℕ → Option ℕ → Type 0
Below n none = Unit
Below n (some s) = s < n

first_free-Below :
    (n i : ℕ) (slot : Option ℕ) (active : Bool)
    → Below n slot
    → i < n
    → Below n (first_free slot active i)
unfolding first_free
first_free-Below n i none true b h = tt
first_free-Below n i none false b h = h
first_free-Below n i (some s) active b h = b

slot_or_id-lt : (id : ℕ) (r : Option ℕ) → Below 64 r → slot_or_id id r < 64
unfolding slot_or_id
slot_or_id-lt id none b = omega arith
slot_or_id-lt id (some s) b = b

module _ {D : Type 0} where
  abbrev pub active_count : List (PendingShare D) → ℕ
  active_count [] = 0
  active_count (p ∷ ps) = one_if p.active + active_count ps

  -- How many active entries have the id.
  abbrev pub with_id : ℕ → List (PendingShare D) → ℕ
  with_id id [] = 0
  with_id id (p ∷ ps) = one_if (p.active && p.id == id) + with_id id ps

  abbrev pub has_at : ℕ → ℕ → List (PendingShare D) → Bool
  has_at id i [] = false
  has_at id zero (p ∷ ps) = p.active && p.id == id
  has_at id (suc i) (p ∷ ps) = has_at id i ps

  pub active_count-set :
      (ps : List (PendingShare D)) (i : ℕ) (p : PendingShare D)
      → i < length ps
      → active_count (set ps i p) + one_if (is_active_at i ps) ≡ active_count ps + one_if p.active
  unfolding is_active_at
  active_count-set [] i p h = absurd (omega arith)
  active_count-set (q ∷ ps) zero p h = omega arith
  active_count-set (q ∷ ps) (suc i) p h = omega (arith, active_count-set ps i p (omega arith))

  pub with_id-set :
      (id : ℕ) (ps : List (PendingShare D)) (i : ℕ) (p : PendingShare D)
      → i < length ps
      → with_id id (set ps i p) + one_if (has_at id i ps)
        ≡ with_id id ps + one_if (p.active && p.id == id)
  with_id-set id [] i p h = absurd (omega arith)
  with_id-set id (q ∷ ps) zero p h = omega arith
  with_id-set id (q ∷ ps) (suc i) p h = omega (arith, with_id-set id ps i p (omega arith))

  pub with_id-take :
      (id n : ℕ) (ps : List (PendingShare D)) → with_id id (take n ps) ≤ with_id id ps
  with_id-take id zero ps = omega arith
  with_id-take id (suc n) [] = omega arith
  with_id-take id (suc n) (p ∷ ps) = omega (arith, with_id-take id n ps)

  -- Either the id is not there, or the search ends at its first entry.
  find_slot-cases :
      (id : ℕ) (ps : List (PendingShare D)) (i : ℕ) (slot : Option ℕ)
      → (with_id id ps ≡ 0)
        ⊎ ((j : ℕ) × (find_slot id ps i slot ≡ some (i + j))
            × (j < length ps)
            × (with_id id (take j ps) ≡ 0)
            × (has_at id j ps ≡ true))
  unfolding find_slot
  find_slot-cases id [] i slot = inl refl
  find_slot-cases id (p ∷ ps) i slot =
      let free = first_free slot p.active i in
      let same : some i ≡ some (i + 0) = ap some (omega arith) in
      elim (Bool-cases (p.active && p.id == id)) [
        | inl e ↦ inr (0, rw e same, omega arith, refl, e)
        | inr e ↦ elim (find_slot-cases id ps (i + 1) free) [
          | inl none_there ↦ inl (rw e (omega arith))
          | inr (j, found, h, before, there) ↦
              let later : i + 1 + j ≡ i + suc j = omega arith in
              inr (suc j, rw e (found ∙ ap some later), omega arith, rw e (omega arith), there)
        ]
      ]

  find_slot-Below :
      (id n : ℕ) (ps : List (PendingShare D)) (i : ℕ) (slot : Option ℕ)
      → Below n slot
      → i + length ps ≤ n
      → Below n (find_slot id ps i slot)
  unfolding find_slot
  find_slot-Below id n [] i slot b h = b
  find_slot-Below id n (p ∷ ps) i slot b h =
      let rest =
        find_slot-Below id n ps (i + 1) (first_free slot p.active i)
          (first_free-Below n i slot p.active b (omega arith)) (omega arith) in
      elim (Bool-cases (p.active && p.id == id)) [ inl e ↦ rw e (omega arith) | inr e ↦ rw e rest ]

  pub chosen_slot-lt :
      (id : ℕ) (ps : List (PendingShare D))
      → length ps ≡ pending_shares
      → chosen_slot id ps < pending_shares
  unfolding chosen_slot
  chosen_slot-lt id ps e =
      slot_or_id-lt id (find_slot id ps 0 none) (find_slot-Below id 64 ps 0 none tt (omega arith))

  pub chosen_slot-cases :
      (id : ℕ) (ps : List (PendingShare D))
      → (with_id id ps ≡ 0)
        ⊎ ((with_id id (take (chosen_slot id ps) ps) ≡ 0)
            × (has_at id (chosen_slot id ps) ps ≡ true))
  unfolding chosen_slot
  chosen_slot-cases id ps = elim (find_slot-cases id ps 0 none) [
    | inl e ↦ inl e
    | inr (j, found, h, before, there) ↦
        let plain : some (0 + j) ≡ some j = ap some (omega arith) in
        let at : slot_or_id id (find_slot id ps 0 none) ≡ j = ap (slot_or_id id) (found ∙ plain) in
        inr (
          subst (λ s. (with_id id (take s ps) ≡ 0) × (has_at id s ps ≡ true)) (sym at)
            (before, there))
  ]
