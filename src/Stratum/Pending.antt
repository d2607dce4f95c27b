-- ===== src/Stratum/Pending.antt =====
-- The table of submitted shares of stratum.c: register_pending_share and complete_pending_share.
-- The ids count up from 4 and are taken below 2 ^ 31, where an `int` holds them.
pub mod Search
pub mod Table
use btcrig.Base.{
  ℕ, zero, suc, ◌+◌, ◌-◌, ◌*◌, ◌/◌, ◌%◌, ◌^◌, ◌≤◌, ◌<◌, min, max, bit_and, bit_or, bit_xor, ◌≡◌,
  refl, sym, ap, ap₂, ◌∙◌, subst, ◌≢◌, ◌↔◌, ◌⊎◌, inl, inr, Bool, true, false, not, ◌&&◌, ◌||◌,
  Option, none, some, List, [], ◌∷◌, ◌++◌, map, arith, ltb, leb, ◌==◌, if◌then◌else◌, ltb→lt,
  lt→ltb, leb→le, ==_iff, tests, Bool-cases, Option-cases, length, get_or, set, take, drop,
  replicate, All, length-append, length-set, length-take, length-drop, length-replicate,
  take-append-drop, take_append, drop_append, get_or-set_self, get_or-set_ne, get_or-take,
  get_or_ext, All-append, All-take, All-drop, All-get_or, length-map, ◌>>=◌,
}
use btcrig.Job.{Doubles}
use btcrig.Stratum.{PendingShare, pending_shares}

-- The part of the state that the table stands in.
pub record PendingTable (D : Type 0) : Type 0 where
  pub pending : List (PendingShare D)
  pub pending_count : ℕ

-- `if (slot < 0 && !active) slot = i`
unfoldable pub first_free : Option ℕ → Bool → ℕ → Option ℕ
first_free none active i = if not active then some i else none
first_free (some s) active i = some s

-- With no slot found the id chooses one.
unfoldable pub slot_or_id : ℕ → Option ℕ → ℕ
slot_or_id id none = id % pending_shares
slot_or_id id (some slot) = slot

module _ {D : Type 0} where
  -- The loop of `register_pending_share` at index `i`, `slot` being the first free index or -1.
  pub find_slot : ℕ → List (PendingShare D) → ℕ → Option ℕ → Option ℕ
  unfolding first_free
  find_slot id [] i slot = slot
  find_slot id (p ∷ ps) i slot =
      let rest = find_slot id ps (i + 1) (first_free slot p.active i) in
      if p.active && p.id == id then some i else rest

  unfoldable pub chosen_slot : ℕ → List (PendingShare D) → ℕ
  unfolding find_slot slot_or_id
  chosen_slot id ps = slot_or_id id (find_slot id ps 0 none)

  unfoldable pub is_active_at : ℕ → List (PendingShare D) → Bool
  is_active_at i [] = false
  is_active_at zero (p ∷ ps) = p.active
  is_active_at (suc i) (p ∷ ps) = is_active_at i ps

  -- The entry and the count of `register_pending_share`.
  unfoldable pub register : PendingTable D → ℕ → D → D → PendingTable D
  unfolding chosen_slot is_active_at
  register t id difficulty now =
      let slot = chosen_slot id t.pending in
      let count =
        if not (is_active_at slot t.pending) then t.pending_count + 1 else t.pending_count in
      record {
        pending =
            set t.pending slot
              (record { id = id; active = true; difficulty = difficulty; submitted_at = now });
        pending_count = count;
      }

  -- The loop of `complete_pending_share`: the first active entry with the id, and the entries with
  -- that one closed.
  pub close_first : ℕ → List (PendingShare D) → Option (PendingShare D) × List (PendingShare D)
  close_first id [] = (none, [])
  close_first id (p ∷ ps) =
      let (found, rest) = close_first id ps in
      if p.active && p.id == id
      then (some p, record p { active = false } ∷ ps)
      else (found, p ∷ rest)

  unfoldable pub complete : PendingTable D → ℕ → Option (PendingShare D) × PendingTable D
  unfolding close_first
  complete t id =
      let (found, ps) = close_first id t.pending in
      elim found [
        | none ↦ (none, t)
        | some p ↦ (
          some p,
          record {
            pending = ps;
            pending_count = if ltb 0 t.pending_count then t.pending_count - 1 else t.pending_count;
          },
        )
      ]

  -- The table of a zeroed state.
  unfoldable pub no_pending : D → PendingTable D
  no_pending zero_double = record {
    pending =
        replicate pending_shares
          (record { id = 0; active = false; difficulty = zero_double; submitted_at = zero_double });
    pending_count = 0;
  }
