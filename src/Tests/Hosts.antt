-- ===== src/Tests/Hosts.antt =====
-- Instances of the theorems on the processors.
use mathlib.Core.List.Permᴰ
use mathlib.Core.List.{Permᴰ}
use btcrig.Base.{
  ℕ, ◌≡◌, refl, ◌↔◌, inl, inr, Bool, none, some, List, [], ◌∷◌, map, arith, if◌then◌else◌,
  Bool-cases,
}
use btcrig.CString.{codes}
use btcrig.Cpu.{
  ℤ, pos, Entry, CpuFiles, faster, is_digit, parse_cpu_dir_name, cpu_info_affinity_plan,
  cpu_info_detect,
}
use btcrig.Cpu.Names.{CpuName, parse_cpu_dir_name_iff}
use btcrig.Cpu.Plan.{cpu_info_affinity_plan_complete}
use btcrig.Cpu.Groups.{Plausible, cpu_info_detect-Plausible}

parse_cpu_dir_name_iff_example :
    (parse_cpu_dir_name (codes "cpu12") ≡ some 12) ↔ CpuName (codes "cpu12") 12
parse_cpu_dir_name_iff_example = parse_cpu_dir_name_iff (codes "cpu12") 12

abbrev cpu : ℕ → ℕ → Entry
cpu id speed = record {
  id = id;
  package_id = 0;
  core_id = id;
  max_freq_khz = speed;
  capacity = 0;
  thread_siblings = [];
}

-- A sort for lists of two, which is enough for the instances.
abbrev sort_two : (Entry → Entry → Bool) → List Entry → List Entry
sort_two before [] = []
sort_two before (a ∷ []) = a ∷ []
sort_two before (a ∷ b ∷ []) = if before b a then b ∷ a ∷ [] else a ∷ b ∷ []
sort_two before (a ∷ b ∷ c ∷ l) = a ∷ b ∷ c ∷ l

sort_two-Permᴰ : (before : Entry → Entry → Bool) (es : List Entry) → Permᴰ es (sort_two before es)
sort_two-Permᴰ before [] = Permᴰ.nil
sort_two-Permᴰ before (a ∷ []) = Permᴰ.cons refl Permᴰ.nil
sort_two-Permᴰ before (a ∷ b ∷ []) = elim (Bool-cases (before b a)) [
  | inl swapped ↦ rw swapped (Permᴰ.swap refl refl)
  | inr kept ↦ rw kept (Permᴰ.cons refl (Permᴰ.cons refl Permᴰ.nil))
]
sort_two-Permᴰ before (a ∷ b ∷ c ∷ l) =
    Permᴰ.cons refl (Permᴰ.cons refl (Permᴰ.cons refl (Permᴰ.refl l)))

abbrev two_cpus : List Entry
two_cpus = cpu 0 1800 ∷ cpu 1 2400 ∷ []

cpu_info_affinity_plan_complete_example :
    cpu_info_affinity_plan sort_two (pos 2) two_cpus 8 ≡ map (λ e. e.id) (sort_two faster two_cpus)
unfolding btcrig.Cpu.has_id
cpu_info_affinity_plan_complete_example =
    cpu_info_affinity_plan_complete sort_two (pos 2) two_cpus 8 (sort_two-Permᴰ faster)
      (refl, (refl, tt)) (omega arith) (omega arith)

-- A directory with the faster processor in front.
faster_first : map (λ e. e.id) (sort_two faster two_cpus) ≡ 1 ∷ 0 ∷ []
unfolding faster
faster_first = refl

abbrev no_files : CpuFiles
no_files = record {
  online = λ id. none;
  physical_package_id = λ id. none;
  core_id = λ id. none;
  cpuinfo_max_freq = λ id. none;
  cpu_capacity = λ id. none;
  thread_siblings_list = λ id. [];
}

cpu_info_detect-Plausible_example :
    Plausible (cpu_info_detect sort_two (pos 2) no_files (some (codes "cpu1" ∷ codes "cpu0" ∷ [])))
cpu_info_detect-Plausible_example =
    cpu_info_detect-Plausible sort_two (pos 2) no_files (some (codes "cpu1" ∷ codes "cpu0" ∷ []))
      sort_two-Permᴰ
