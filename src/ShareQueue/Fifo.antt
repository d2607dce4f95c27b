-- ===== src/ShareQueue/Fifo.antt =====
-- The ring holds a first-in first-out queue of at most 256 shares.
use mathlib.Core.List.{map-append}
use btcrig.Base.{
  ℕ, zero, suc, ◌+◌, ◌-◌, ◌%◌, ◌≤◌, ◌<◌, ◌≡◌, refl, sym, ap, ap₂, ◌∙◌, ◌≢◌, inl, inr, true, false,
  Option, none, some, List, [], ◌∷◌, ◌++◌, map, arith, ltb, leb, if◌then◌else◌, Bool-cases, length,
  get_or, set, length-append, length-set, get_or-set_self, get_or-set_ne,
}
use btcrig.ShareQueue.{ShareQueue, queue_size, empty, push, pop, clear}

module _ {ℓ} {A : Type ℓ} where
  -- The slots from index `at` on, `n` of them, round the end of the array.
  abbrev pub entries : List (Option A) → ℕ → ℕ → List (Option A)
  entries slots at zero = []
  entries slots at (suc n) = get_or slots at none ∷ entries slots ((at + 1) % queue_size) n

  -- The ring `r` holds the shares `q`, the oldest first.
  pub record Holds (r : ShareQueue A) (q : List A) : Type ℓ where
    pub size : length r.shares ≡ queue_size
    pub head_in : r.share_head < queue_size
    pub bounded : r.share_count ≤ queue_size
    pub tail_at : r.share_tail ≡ (r.share_head + r.share_count) % queue_size
    pub count : r.share_count ≡ length q
    pub slots : entries r.shares r.share_head r.share_count ≡ map some q

  -- A write at a slot that the walk does not meet is not seen.
  entries-set :
      (n at i : ℕ) (slots : List (Option A)) (v : Option A)
      → at < queue_size
      → n ≤ queue_size
      → ((j : ℕ) → j < n → (at + j) % queue_size ≢ i)
      → entries (set slots i v) at n ≡ entries slots at n
  entries-set zero at i slots v ha hn miss = refl
  entries-set (suc n) at i slots v ha hn miss =
      ap₂ ◌∷◌ (get_or-set_ne slots i at v none (λ e. miss 0 (omega arith) (omega (arith, e)))) (
        entries-set n ((at + 1) % queue_size) i slots v (omega arith) (omega arith)
          (λ j p e. miss (suc j) (omega arith) (omega (arith, e))))

  -- One entry more is what stands behind the others.
  entries-suc :
      (n at : ℕ) (slots : List (Option A))
      → at < queue_size
      → entries slots at (suc n)
        ≡ entries slots at n ++ (get_or slots ((at + n) % queue_size) none ∷ [])
  entries-suc zero at slots ha =
      let here : at ≡ (at + 0) % queue_size = omega arith in ap (λ i. get_or slots i none ∷ []) here
  entries-suc (suc n) at slots ha =
      let next : ((at + 1) % queue_size + n) % queue_size ≡ (at + suc n) % queue_size =
        omega arith in
      ap (◌∷◌ (get_or slots at none)) (
        entries-suc n ((at + 1) % queue_size) slots (omega arith)
        ∙ ap (λ i. entries slots ((at + 1) % queue_size) n ++ (get_or slots i none ∷ [])) next)

  pub empty-Holds : Holds (empty {A = A}) []
  unfolding empty
  empty-Holds = record {
    size = refl;
    head_in = omega arith;
    bounded = omega arith;
    tail_at = refl;
    count = refl;
    slots = refl;
  }

  pub clear-Holds : (r : ShareQueue A) → length r.shares ≡ queue_size → Holds (clear r) []
  unfolding clear
  clear-Holds r e = record {
    size = e;
    head_in = omega arith;
    bounded = omega arith;
    tail_at = refl;
    count = refl;
    slots = refl;
  }

  -- The bounded queue: what a push leaves.
  abbrev pub pushed : List A → A → List A
  pushed q share = if ltb (length q) queue_size then q ++ (share ∷ []) else q

  -- A push appends the share, or drops it when 256 shares wait.
  pub push-Holds :
      (r : ShareQueue A) (q : List A) (share : A)
      → Holds r q
      → Holds (push r share) (pushed q share)
  unfolding push
  push-Holds r q share h = elim (Bool-cases (ltb (length q) queue_size)) [
    | inl room ↦
        let open_slot : leb queue_size r.share_count ≡ false = ground arith in
        let more : r.share_count + 1 ≡ suc r.share_count = omega arith in
        rw (room, open_slot)
          (record {
            size = length-set r.shares r.share_tail (some share) ∙ h.size;
            head_in = h.head_in;
            bounded = ground arith;
            tail_at = omega arith;
            count = omega (arith, length-append q (share ∷ []));
            slots =
                ap (entries (set r.shares r.share_tail (some share)) r.share_head) more
                ∙ entries-suc r.share_count r.share_head (set r.shares r.share_tail (some share))
                    h.head_in
                ∙ ap₂ (λ xs x. xs ++ (x ∷ []))
                    (entries-set r.share_count r.share_head r.share_tail r.shares (some share)
                        h.head_in h.bounded (λ j p e. ground arith)
                      ∙ h.slots)
                    (rw (← h.tail_at)
                      (get_or-set_self r.shares r.share_tail (some share) none (omega arith)))
                ∙ sym (map-append some q (share ∷ []));
          })
    | inr full ↦
        let closed : leb queue_size r.share_count ≡ true = ground arith in rw (full, closed) h
  ]

  -- A pop of an empty queue finds nothing and changes nothing.
  pub pop-empty : (r : ShareQueue A) → Holds r [] → pop r ≡ (false, none, r)
  unfolding pop
  pop-empty r h = let none_left : ltb 0 r.share_count ≡ false = ground arith in rw none_left refl

  pub pop-Holds :
      (r : ShareQueue A) (s : A) (q : List A)
      → Holds r (s ∷ q)
      → ((pop r).0 ≡ true) × ((pop r).1 ≡ some s) × Holds (pop r).2 q
  unfolding pop
  pop-Holds r s q h =
      let some_left : ltb 0 r.share_count ≡ true = ground arith in
      let whole : entries r.shares r.share_head (suc (length q)) ≡ some s ∷ map some q =
        ap (entries r.shares r.share_head) (sym h.count) ∙ h.slots in
      let less : r.share_count - 1 ≡ length q = omega arith in
      rw some_left (
        refl,
        cc whole,
        record {
          size = h.size;
          head_in = omega arith;
          bounded = omega arith;
          tail_at = omega arith;
          count = less;
          slots = ap (entries r.shares ((r.share_head + 1) % queue_size)) less ∙ cc whole;
        },
      )
