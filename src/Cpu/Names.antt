-- ===== src/Cpu/Names.antt =====
-- Which directories of /sys are processors.
use mathlib.Core.Option.{none-ne-some, some-injective}
use btcrig.Base.{
  ℕ, ◌+◌, ◌-◌, ◌*◌, ◌≤◌, ◌<◌, ◌≡◌, refl, sym, ap, ◌∙◌, subst, ◌↔◌, inl, inr, Bool, true, false, not,
  ◌&&◌, ◌||◌, some, List, [], ◌∷◌, ◌++◌, arith, leb, ◌==◌, Bool-cases, length, All,
}
use btcrig.CString.{codes}
use btcrig.Cpu.{max_cpus, is_digit, parse_id, parse_cpu_dir_name}

-- The number that digits denote behind the digits of `n`.
abbrev pub decimal : ℕ → List ℕ → ℕ
decimal n [] = n
decimal n (c ∷ cs) = decimal (n * 10 + (c - b'0')) cs

abbrev pub Digits : List ℕ → Type 0
Digits ds = All (λ c. is_digit c ≡ true) ds

decimal_grows : (n : ℕ) (ds : List ℕ) → n ≤ decimal n ds
decimal_grows n [] = omega arith
decimal_grows n (c ∷ cs) = omega (arith, decimal_grows (n * 10 + (c - b'0')) cs)

parse_id_whole :
    (n : ℕ) (ds : List ℕ)
    → Digits ds
    → decimal n ds < max_cpus
    → parse_id n ds ≡ some (decimal n ds)
unfolding parse_id
parse_id_whole n [] h small = refl
parse_id_whole n (c ∷ cs) h small =
    let next = n * 10 + (c - b'0') in
    let grows = decimal_grows next cs in
    let fits : leb max_cpus next ≡ false = ground (arith, grows) in
    rw (h.0, fits, parse_id) (parse_id_whole next cs h.1 small)

parse_id_found :
    (n : ℕ) (ds : List ℕ) (id : ℕ)
    → n < max_cpus
    → parse_id n ds ≡ some id
    → Digits ds × (decimal n ds ≡ id) × (id < max_cpus)
unfolding parse_id
parse_id_found n [] id small e = let same = some-injective _ _ e in (tt, same, (omega arith))
parse_id_found n (c ∷ cs) id small e = elim (Bool-cases (not (is_digit c) || leb max_cpus next)) [
  | inl refused ↦ absurd (none-ne-some _ (rw (refused, parse_id) at e))
  | inr taken ↦
      let rest = parse_id_found next cs id (ground (arith, taken)) (rw (taken, parse_id) at e) in
      ((digit (is_digit c) _ taken, rest.0), rest.1, rest.2)
]
  where
    next : ℕ
    next = n * 10 + (c - b'0')

    digit : (a b : Bool) → (not a || b) ≡ false → a ≡ true
    digit true b h = refl
    digit false b h = cc

-- The name of processor `id`.
abbrev pub CpuName : List ℕ → ℕ → Type 0
CpuName name id =
    (ds : List ℕ) × (name ≡ codes "cpu" ++ ds)
    × (0 < length ds)
    × Digits ds
    × (decimal 0 ds ≡ id)
    × (id < max_cpus)

name_taken :
    (ds : List ℕ)
    → 0 < length ds
    → Digits ds
    → decimal 0 ds < max_cpus
    → parse_cpu_dir_name (codes "cpu" ++ ds) ≡ some (decimal 0 ds)
unfolding parse_cpu_dir_name
name_taken [] more h small = absurd (omega arith)
name_taken (d ∷ ds) more h small =
    rw (h.0, parse_cpu_dir_name) (rw h.0 at (parse_id_whole 0 (d ∷ ds) h small))

name_found : (name : List ℕ) (id : ℕ) → parse_cpu_dir_name name ≡ some id → CpuName name id
unfolding parse_cpu_dir_name
name_found [] n e = absurd (none-ne-some _ e)
name_found (c ∷ []) n e = absurd (none-ne-some _ e)
name_found (c ∷ p ∷ []) n e = absurd (none-ne-some _ e)
name_found (c ∷ p ∷ u ∷ []) n e = absurd (none-ne-some _ e)
name_found (c ∷ p ∷ u ∷ d ∷ ds) n e =
    elim (Bool-cases ((c == b'c') && (p == b'p') && (u == b'u') && is_digit d)) [
      | inr other ↦ absurd (none-ne-some _ (rw (other, parse_cpu_dir_name) at e))
      | inl cpu ↦
          let is_c : c ≡ b'c' = ground (arith, cpu) in
          let is_p : p ≡ b'p' = ground (arith, cpu) in
          let is_u : u ≡ b'u' = ground (arith, cpu) in
          let rest =
            parse_id_found 0 (d ∷ ds) n (omega arith) (rw (cpu, parse_cpu_dir_name) at e) in
          (d ∷ ds, (λ i. is_c i ∷ is_p i ∷ is_u i ∷ d ∷ ds), omega arith, rest.0, rest.1, rest.2)
    ]

-- A name is taken for processor `id` exactly where it is "cpu" and one digit or more, which denote
-- `id`, and `id` is below the bound: that the loop gives up at the first number past the bound
-- refuses no other name.
pub parse_cpu_dir_name_iff :
    (name : List ℕ) (id : ℕ) → (parse_cpu_dir_name name ≡ some id) ↔ CpuName name id
parse_cpu_dir_name_iff name id = (
  name_found name id,
  λ (h : CpuName name id).
      let small = subst (λ n. n < max_cpus) (sym h.4) h.5 in
      ap parse_cpu_dir_name h.1 ∙ name_taken h.0 h.2 h.3 small ∙ ap some h.4,
)
