-- ===== src/Cpu/Groups.antt =====
-- What is known of the processors that are found.
use mathlib.Core.List.{Permᴰ}
use btcrig.Base.{
  ℕ, suc, ◌+◌, ◌≤◌, ◌<◌, ◌≡◌, refl, ◌⊎◌, inl, inr, Bool, true, false, ◌||◌, Option, none, some,
  List, [], ◌∷◌, ◌++◌, arith, ltb, leb, if◌then◌else◌, Bool-cases, Option-cases, length,
}
use btcrig.Cpu.{
  ℤ, pos, negsuc, Entry, Info, max_cpus, CpuFiles, parse_cpu_dir_name, cpu_is_online, count_groups,
  finalize_sysfs_info, read_entries, sysconf_online_cpus, cpu_info_detect,
}
use btcrig.Cpu.Plan.{length-Permᴰ}

-- No group is counted twice: there are no more groups than entries.
count_groups_bound : (before es : List Entry) → (count_groups before es).0 ≤ length es
unfolding count_groups
count_groups_bound before [] = omega arith
count_groups_bound before (e ∷ es) = ground (arith, count_groups_bound (before ++ (e ∷ [])) es)

length-read_entries :
    (files : CpuFiles) (names : List (List ℕ)) (count : ℕ)
    → count ≤ max_cpus
    → length (read_entries files names count) + count ≤ max_cpus
unfolding read_entries
length-read_entries files [] count h = omega arith
length-read_entries files (name ∷ names) count h = elim (Bool-cases (leb max_cpus count)) [
  | inl full ↦ rw (full, read_entries) (omega arith)
  | inr room ↦ elim (Option-cases (parse_cpu_dir_name name)) [
    | inl other ↦ rw (room, other, read_entries) (length-read_entries files names count h)
    | inr found ↦ elim (Bool-cases (cpu_is_online files found.0)) [
      | inl online ↦
          let room_for_it = length-read_entries files names (suc count) (ground (arith, room)) in
          rw (room, found.1, online, read_entries) (omega arith)
      | inr offline ↦
          rw (room, found.1, offline, read_entries) (length-read_entries files names count h)
    ]
  ]
]

-- What the rest of the program relies on.
abbrev pub Plausible : Info → Type 0
Plausible info =
    (1 ≤ info.physical_count)
    × (info.physical_count ≤ info.logical_count)
    × (info.logical_count ≤ max_cpus)
    × (info.recommended_threads ≡ info.logical_count)
    × ((info.physical_count ≡ info.logical_count) ⊎ (info.has_smt ≡ true))

cores :
    (smt : Bool) (physical logical : ℕ)
    → physical ≤ logical
    → (physical ≡ logical) ⊎ ((smt || ltb physical logical) ≡ true)
cores smt physical logical h = elim (Bool-cases (ltb physical logical)) [
  | inl fewer ↦ inr (rw fewer (either smt))
  | inr same ↦ inl (ground (arith, same))
]
  where
    either : (b : Bool) → (b || true) ≡ true
    either true = refl
    either false = refl

finalize_sysfs_info-Plausible :
    (es : List Entry) → 0 < length es → length es ≤ max_cpus → Plausible (finalize_sysfs_info es)
unfolding finalize_sysfs_info
finalize_sysfs_info-Plausible es more fits =
    let groups = (count_groups [] es).0 in
    let bound = count_groups_bound [] es in
    let physical = if ltb 0 groups then groups else length es in
    let one : 1 ≤ physical = ground arith in
    let no_more : physical ≤ length es = ground arith in
    (one, no_more, fits, ground arith, cores (count_groups [] es).1 physical (length es) no_more)

sysconf_online_cpus-bounds :
    (online : ℤ) → (1 ≤ sysconf_online_cpus online) × (sysconf_online_cpus online ≤ max_cpus)
unfolding sysconf_online_cpus
sysconf_online_cpus-bounds (pos n) = ground arith
sysconf_online_cpus-bounds (negsuc n) = ground arith

-- set_fallback
fallback-Plausible :
    (online : ℤ)
    → Plausible (record {
      logical_count = sysconf_online_cpus online;
      physical_count = sysconf_online_cpus online;
      has_smt = false;
      recommended_threads = sysconf_online_cpus online;
      entries = [];
    })
fallback-Plausible online =
    let bounds = sysconf_online_cpus-bounds online in
    (bounds.0, omega arith, bounds.1, refl, inl refl)

-- What detection gives is plausible, whatever sysconf, the directory and the files say, where qsort
-- only reorders: at least one core, no more cores than processors, no more processors than the
-- bound, one thread for each of them, and processors that share a core are reported.
pub cpu_info_detect-Plausible :
    (qsort : (Entry → Entry → Bool) → List Entry → List Entry) (online : ℤ) (files : CpuFiles)
    (directory : Option (List (List ℕ)))
    → ((before : Entry → Entry → Bool) (es : List Entry) → Permᴰ es (qsort before es))
    → Plausible (cpu_info_detect qsort online files directory)
unfolding cpu_info_detect
cpu_info_detect-Plausible qsort online files none reorders = fallback-Plausible online
cpu_info_detect-Plausible qsort online files (some names) reorders =
    let found = read_entries files names 0 in
    let fits = length-read_entries files names 0 (omega arith) in
    elim (Bool-cases (leb (length found) 0)) [
      | inl nothing ↦ rw (nothing, cpu_info_detect) (fallback-Plausible online)
      | inr some_found ↦
          let sorted = qsort (λ (a : Entry) (b : Entry). ltb a.id b.id) found in
          let same = length-Permᴰ (reorders (λ (a : Entry) (b : Entry). ltb a.id b.id) found) in
          rw (some_found, cpu_info_detect)
            (finalize_sysfs_info-Plausible sorted (ground (arith, some_found, same)) (omega arith))
    ]
