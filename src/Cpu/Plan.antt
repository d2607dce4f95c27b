-- ===== src/Cpu/Plan.antt =====
-- The order in which threads are bound to processors.
use mathlib.Core.List.{append-nil, append_assoc, Permᴰ}
use btcrig.Base.{
  ℕ, suc, ◌≤◌, ◌<◌, min, ◌≡◌, refl, sym, ap, ap₂, ◌∙◌, subst, inl, inr, Bool, true, false, ◌||◌,
  List, [], ◌∷◌, ◌++◌, map, arith, ltb, leb, ◌==◌, Bool-cases, length, length-append, length-map,
  take_whole,
}
use btcrig.Cpu.{
  ℤ, Entry, max_cpus, faster, has_id, append_cpu_id, append_ids, cpu_info_affinity_plan,
}

-- No number stands twice.
abbrev pub Distinct : List ℕ → Type 0
Distinct [] = Unit
Distinct (x ∷ xs) = (has_id x xs ≡ false) × Distinct xs

has_id-append : (x : ℕ) (xs ys : List ℕ) → has_id x (xs ++ ys) ≡ (has_id x xs || has_id x ys)
unfolding has_id
has_id-append x [] ys = refl
has_id-append x (y ∷ xs) ys = ground (arith, has_id-append x xs ys)

Distinct-append_one :
    (xs : List ℕ) (x : ℕ) → Distinct xs → has_id x xs ≡ false → Distinct (xs ++ (x ∷ []))
unfolding has_id
Distinct-append_one [] x h fresh = (refl, tt)
Distinct-append_one (y ∷ xs) x h fresh = (
  ground (arith, has_id-append y xs (x ∷ []), fresh, h.0),
  Distinct-append_one xs x h.1 (ground (arith, fresh)),
)

-- What the array keeps: distinct numbers, and no more than it has room for.
abbrev pub IsPlan : ℕ → List ℕ → Type 0
IsPlan max_count out = Distinct out × (length out ≤ max_count)

append_cpu_id-IsPlan :
    (max_count id : ℕ) (out : List ℕ)
    → IsPlan max_count out
    → IsPlan max_count (append_cpu_id max_count id out)
unfolding append_cpu_id
append_cpu_id-IsPlan max_count id out h = elim (Bool-cases (leb max_count (length out))) [
  | inl full ↦ rw (full, append_cpu_id) h
  | inr room ↦ elim (Bool-cases (has_id id out)) [
    | inl twice ↦ rw (room, twice, append_cpu_id) h
    | inr fresh ↦
        rw (room, fresh, append_cpu_id)
          (Distinct-append_one out id h.0 fresh, ground (arith, room, length-append out (id ∷ [])))
  ]
]

append_ids-IsPlan :
    (max_count : ℕ) (ids out : List ℕ)
    → IsPlan max_count out
    → IsPlan max_count (append_ids max_count ids out)
unfolding append_ids
append_ids-IsPlan max_count [] out h = h
append_ids-IsPlan max_count (id ∷ ids) out h = elim (Bool-cases (ltb (length out) max_count)) [
  | inl room ↦
      rw (room, append_ids)
        (append_ids-IsPlan max_count ids _ (append_cpu_id-IsPlan max_count id out h))
  | inr full ↦ rw (full, append_ids) h
]

-- Whatever qsort does: the plan names no processor twice and fits into the array.
pub cpu_info_affinity_plan-IsPlan :
    (qsort : (Entry → Entry → Bool) → List Entry → List Entry) (online : ℤ) (entries : List Entry)
    (max_count : ℕ)
    → IsPlan max_count (cpu_info_affinity_plan qsort online entries max_count)
unfolding cpu_info_affinity_plan
cpu_info_affinity_plan-IsPlan qsort online entries max_count =
    elim (Bool-cases (leb (length entries) 0)) [
      | inl nothing ↦
          rw (nothing, cpu_info_affinity_plan) (append_ids-IsPlan max_count _ [] (tt, omega arith))
      | inr some_entries ↦
          rw (some_entries, cpu_info_affinity_plan)
            (append_ids-IsPlan max_count _ [] (tt, omega arith))
    ]

Distinct-fresh :
    (xs : List ℕ) (x : ℕ) (ys : List ℕ) → Distinct (xs ++ (x ∷ ys)) → has_id x xs ≡ false
unfolding has_id
Distinct-fresh [] x ys d = refl
Distinct-fresh (y ∷ xs) x ys d =
    ground (arith, has_id-append y xs (x ∷ ys), Distinct-fresh xs x ys d.1, d.0)

-- Distinct numbers that have room are all appended, in their order.
append_ids_whole :
    (max_count : ℕ) (ids out : List ℕ)
    → Distinct (out ++ ids)
    → length (out ++ ids) ≤ max_count
    → append_ids max_count ids out ≡ out ++ ids
unfolding append_ids append_cpu_id
append_ids_whole max_count [] out d h = sym (append-nil out)
append_ids_whole max_count (id ∷ ids) out d h =
    let sum = length-append out (id ∷ ids) in
    let room : ltb (length out) max_count ≡ true = ground (arith, sum) in
    let not_full : leb max_count (length out) ≡ false = ground (arith, sum) in
    let fresh = Distinct-fresh out id ids d in
    let shift = append_assoc out (id ∷ []) ids in
    let rest =
      append_ids_whole max_count ids (out ++ (id ∷ [])) (subst Distinct (sym shift) d)
        (subst (λ l. length l ≤ max_count) (sym shift) h) in
    rw (room, not_full, fresh, append_ids) (rest ∙ shift)

has_id-Permᴰ :
    (id : ℕ) {xs ys : List Entry}
    → Permᴰ xs ys
    → has_id id (map (λ e. e.id) xs) ≡ has_id id (map (λ e. e.id) ys)
unfolding has_id
has_id-Permᴰ id Permᴰ.nil = refl
has_id-Permᴰ id (Permᴰ.cons e p) =
    ap₂ (λ (a : Entry) (b : Bool). (a.id == id) || b) e (has_id-Permᴰ id p)
has_id-Permᴰ id (Permᴰ.swap {a = a} {b = b} {a' = a'} {b' = b'} {l = l} e f) =
    let same : a.id ≡ b'.id = ap (λ (x : Entry). x.id) e in
    let other : b.id ≡ a'.id = ap (λ (x : Entry). x.id) f in ground arith
has_id-Permᴰ id (Permᴰ.trans p q) = has_id-Permᴰ id p ∙ has_id-Permᴰ id q

Distinct-Permᴰ :
    {xs ys : List Entry}
    → Permᴰ xs ys
    → Distinct (map (λ e. e.id) xs)
    → Distinct (map (λ e. e.id) ys)
unfolding has_id
Distinct-Permᴰ Permᴰ.nil d = d
Distinct-Permᴰ (Permᴰ.cons {b = b} {l₁ = l₁} e p) d =
    let there = has_id-Permᴰ b.id p in
    let here = ap (λ (x : Entry). has_id x.id (map (λ y. y.id) l₁)) e in
    (sym there ∙ sym here ∙ d.0, Distinct-Permᴰ p d.1)
Distinct-Permᴰ (Permᴰ.swap {a = a} {b = b} {a' = a'} {b' = b'} {l = l} e f) d =
    let same : a.id ≡ b'.id = ap (λ (x : Entry). x.id) e in
    let other : b.id ≡ a'.id = ap (λ (x : Entry). x.id) f in
    let others = map (λ (y : Entry). y.id) l in
    let first = subst (λ n. has_id n (b.id ∷ others) ≡ false) same d.0 in
    let second = subst (λ n. has_id n others ≡ false) other d.1.0 in
    (ground (arith, first, second), (ground (arith, first), d.1.1))
Distinct-Permᴰ (Permᴰ.trans p q) d = Distinct-Permᴰ q (Distinct-Permᴰ p d)

pub length-Permᴰ : {xs ys : List Entry} → Permᴰ xs ys → length xs ≡ length ys
length-Permᴰ Permᴰ.nil = refl
length-Permᴰ (Permᴰ.cons _ p) = ap suc (length-Permᴰ p)
length-Permᴰ (Permᴰ.swap _ _) = refl
length-Permᴰ (Permᴰ.trans p q) = length-Permᴰ p ∙ length-Permᴰ q

-- Where the entries have distinct numbers and the array has room for them, and qsort only reorders what
-- it is given: the plan is the processors of all entries in the order in which qsort leaves them, each
-- once.
pub cpu_info_affinity_plan_complete :
    (qsort : (Entry → Entry → Bool) → List Entry → List Entry) (online : ℤ) (entries : List Entry)
    (max_count : ℕ)
    → ((es : List Entry) → Permᴰ es (qsort faster es))
    → Distinct (map (λ e. e.id) entries)
    → 0 < length entries
    → length entries ≤ min max_cpus max_count
    → cpu_info_affinity_plan qsort online entries max_count ≡ map (λ e. e.id) (qsort faster entries)
unfolding cpu_info_affinity_plan
cpu_info_affinity_plan_complete qsort online entries max_count reorders d more fits =
    let some_entries : leb (length entries) 0 ≡ false = ground arith in
    let whole = take_whole max_cpus entries (omega arith) in
    let sorted = qsort faster entries in
    let same = length-map (λ (e : Entry). e.id) sorted in
    let counted = length-Permᴰ (reorders entries) in
    let plan =
      append_ids_whole max_count (map (λ (e : Entry). e.id) sorted) []
        (Distinct-Permᴰ (reorders entries) d) (omega arith) in
    rw (some_entries, cpu_info_affinity_plan)
      (ap (λ es. append_ids max_count (map (λ (e : Entry). e.id) (qsort faster es)) []) whole
        ∙ plan)
