-- ===== src/Cpu.antt =====
-- The processors of cpu_info.c as Linux shows them: the names of the directories, the entries, the
-- counts, and the order in which threads are bound. Files of /sys, the list of the directory, the
-- number of online processors and qsort are parameters.
pub mod Plan
pub mod Names
pub mod Groups
use btcrig.Base.{
  ℕ, zero, suc, ◌+◌, ◌-◌, ◌*◌, ◌/◌, ◌%◌, ◌^◌, ◌≤◌, ◌<◌, min, max, bit_and, bit_or, bit_xor, ◌≡◌,
  refl, sym, ap, ap₂, ◌∙◌, subst, ◌≢◌, ◌↔◌, ◌⊎◌, inl, inr, Bool, true, false, not, ◌&&◌, ◌||◌,
  Option, none, some, List, [], ◌∷◌, ◌++◌, map, arith, ltb, leb, ◌==◌, if◌then◌else◌, ltb→lt,
  lt→ltb, leb→le, ==_iff, tests, Bool-cases, Option-cases, length, get_or, set, take, drop,
  replicate, All, length-append, length-set, length-take, length-drop, length-replicate,
  take-append-drop, take_append, drop_append, get_or-set_self, get_or-set_ne, get_or-take,
  get_or_ext, All-append, All-take, All-drop, All-get_or, length-map, ◌>>=◌, take_whole,
  take-append, range_from, range_from-suc,
}
use btcrig.CString.{same_text}

-- CPU_INFO_MAX_CPUS
abbrev pub max_cpus : ℕ
max_cpus = 256

-- A long, as strtol reads it.
pub data ℤ : Type 0 where
  pos : ℕ → ℤ
  negsuc : ℕ → ℤ

-- cpu_info_entry_t, with an int as its 32 bits; a long that is no more than 0 counts as 0 in every
-- use of it, and stands as 0.
pub record Entry : Type 0 where
  pub id : ℕ
  pub package_id : ℕ
  pub core_id : ℕ
  pub max_freq_khz : ℕ
  pub capacity : ℕ
  pub thread_siblings : List ℕ

-- cpu_info_t without the text of its source; entry_count is the length of the entries
pub record Info : Type 0 where
  pub logical_count : ℕ
  pub physical_count : ℕ
  pub has_smt : Bool
  pub recommended_threads : ℕ
  pub entries : List Entry

unfoldable pub is_digit : ℕ → Bool
is_digit c = leb b'0' c && leb c b'9'

-- The loop over the digits of a directory's name.
unfoldable pub parse_id : ℕ → List ℕ → Option ℕ
unfolding is_digit
parse_id id [] = some id
parse_id id (c ∷ cs) =
    let next = id * 10 + (c - b'0') in
    let rest = parse_id next cs in if not (is_digit c) || leb max_cpus next then none else rest

unfoldable pub parse_cpu_dir_name : List ℕ → Option ℕ
unfolding parse_id is_digit
parse_cpu_dir_name (c ∷ p ∷ u ∷ d ∷ ds) =
    if (c == b'c') && (p == b'p') && (u == b'u') && is_digit d then parse_id 0 (d ∷ ds) else none
parse_cpu_dir_name name = none

-- The conversion of a long to an int.
unfoldable pub int_of_long : ℤ → ℕ
int_of_long (pos n) = n % 2 ^ 32
int_of_long (negsuc n) = (2 ^ 32 - 1) - n % 2 ^ 32

-- The part of a long above 0.
unfoldable pub above_zero : ℤ → ℕ
above_zero (pos n) = n
above_zero (negsuc n) = 0

-- What read_long_file and read_text_file find below the directory of a processor; a text that
-- cannot be read leaves the empty one.
pub record CpuFiles : Type 0 where
  pub online : ℕ → Option ℤ
  pub physical_package_id : ℕ → Option ℤ
  pub core_id : ℕ → Option ℤ
  pub cpuinfo_max_freq : ℕ → Option ℤ
  pub cpu_capacity : ℕ → Option ℤ
  pub thread_siblings_list : ℕ → List ℕ

unfoldable pub cpu_is_online : CpuFiles → ℕ → Bool
cpu_is_online files id = elim (files.online id) [
  | none ↦ true
  | some value ↦ elim value [ pos n ↦ not (n == 0) | negsuc n ↦ true ]
]

-- What a file says, or the default where it cannot be read.
unfoldable pub read_or : ℕ → (ℤ → ℕ) → Option ℤ → ℕ
read_or default convert none = default
read_or default convert (some value) = convert value

unfoldable pub read_cpu_entry : CpuFiles → ℕ → Entry
unfolding read_or int_of_long above_zero
read_cpu_entry files id = record {
  id = id;
  package_id = read_or 0 int_of_long (files.physical_package_id id);
  core_id = read_or id int_of_long (files.core_id id);
  max_freq_khz = read_or 0 above_zero (files.cpuinfo_max_freq id);
  capacity = read_or 0 above_zero (files.cpu_capacity id);
  thread_siblings = files.thread_siblings_list id;
}

unfoldable pub same_physical_core : Entry → Entry → Bool
same_physical_core a b = (a.package_id == b.package_id) && (a.core_id == b.core_id)

unfoldable pub has_byte : ℕ → List ℕ → Bool
has_byte c [] = false
has_byte c (x ∷ xs) = (x == c) || has_byte c xs

-- The text of an entry is never NULL.
unfoldable pub sibling_list_implies_smt : List ℕ → Bool
unfolding has_byte
sibling_list_implies_smt text = has_byte b',' text || has_byte b'-' text

unfoldable pub same_affinity_group : Entry → Entry → Bool
unfolding same_physical_core
same_affinity_group a b =
    if ltb 0 (length a.thread_siblings) && ltb 0 (length b.thread_siblings)
    then same_text a.thread_siblings b.thread_siblings
    else same_physical_core a b

-- The inner loop of finalize_sysfs_info: `before` are the entries below index i.
unfoldable pub seen_group : Entry → List Entry → Bool
unfolding same_affinity_group
seen_group e [] = false
seen_group e (b ∷ before) = same_affinity_group e b || seen_group e before

-- The outer loop: how many entries have no group among those before them, and whether a sibling list
-- names several processors.
unfoldable pub count_groups : List Entry → List Entry → ℕ × Bool
unfolding seen_group sibling_list_implies_smt
count_groups before [] = (0, false)
count_groups before (e ∷ es) =
    let rest = count_groups (before ++ (e ∷ [])) es in
    let smt_here = sibling_list_implies_smt e.thread_siblings in
    (if seen_group e before then rest.0 else suc rest.0, smt_here || rest.1)

unfoldable pub finalize_sysfs_info : List Entry → Info
unfolding count_groups
finalize_sysfs_info entries =
    let counted = count_groups [] entries in
    let logical = length entries in
    let physical = if ltb 0 counted.0 then counted.0 else logical in
    record {
      logical_count = logical;
      physical_count = physical;
      has_smt = counted.1 || ltb physical logical;
      recommended_threads = if leb logical 0 then 1 else logical;
      entries = entries;
    }

-- The loop of detect_sysfs over the names in the directory.
unfoldable pub read_entries : CpuFiles → List (List ℕ) → ℕ → List Entry
unfolding parse_cpu_dir_name cpu_is_online read_cpu_entry
read_entries files [] count = []
read_entries files (name ∷ names) count =
    let skipped = read_entries files names count in
    let after = read_entries files names (suc count) in
    if leb max_cpus count then [] else elim (parse_cpu_dir_name name) [
      | none ↦ skipped
      | some id ↦ if cpu_is_online files id then read_cpu_entry files id ∷ after else skipped
    ]

-- cpu_entry_rank, whose two tests ask for values above 0
unfoldable pub cpu_entry_rank : Entry → ℕ
cpu_entry_rank e = if ltb 0 e.capacity then e.capacity else e.max_freq_khz

-- Whether compare_cpu_entries_by_speed puts `a` before `b`: the sign of its result.
unfoldable pub faster : Entry → Entry → Bool
unfolding cpu_entry_rank
faster a b =
    if cpu_entry_rank a == cpu_entry_rank b
    then ltb a.id b.id
    else ltb (cpu_entry_rank b) (cpu_entry_rank a)

unfoldable pub has_id : ℕ → List ℕ → Bool
has_id id [] = false
has_id id (x ∷ xs) = (x == id) || has_id id xs

-- append_cpu_id on the part of the array that is filled; an entry's id is no less than 0.
unfoldable pub append_cpu_id : ℕ → ℕ → List ℕ → List ℕ
unfolding has_id
append_cpu_id max_count id out =
    if leb max_count (length out) then out else if has_id id out then out else out ++ (id ∷ [])

-- The loops of append_entry_order and append_sysconf_order, whose own test of `count` is the one of
-- append_cpu_id.
unfoldable pub append_ids : ℕ → List ℕ → List ℕ → List ℕ
unfolding append_cpu_id
append_ids max_count [] out = out
append_ids max_count (id ∷ ids) out =
    let rest = append_ids max_count ids (append_cpu_id max_count id out) in
    if ltb (length out) max_count then rest else out

-- sysconf_online_cpus on what sysconf gives
unfoldable pub sysconf_online_cpus : ℤ → ℕ
sysconf_online_cpus (pos count) = if ltb 0 count && leb count max_cpus then count else 1
sysconf_online_cpus (negsuc n) = 1

-- cpu_info_affinity_plan for a list of entries that was read (empty where there is no info), with the
-- qsort and the number that sysconf gives.
pub cpu_info_affinity_plan :
    ((Entry → Entry → Bool) → List Entry → List Entry) → ℤ → List Entry → ℕ → List ℕ
unfolding append_ids faster sysconf_online_cpus
cpu_info_affinity_plan qsort online entries max_count =
    if leb (length entries) 0
    then append_ids max_count (range_from 0 (sysconf_online_cpus online)) []
    else append_ids max_count (map (λ e. e.id) (qsort faster (take max_cpus entries))) []

-- cpu_info_detect on Linux, with the names in the directory where it can be opened; an info that holds
-- no entries is the one of set_fallback.
pub cpu_info_detect :
    ((Entry → Entry → Bool) → List Entry → List Entry)
    → ℤ
    → CpuFiles
    → Option (List (List ℕ))
    → Info
unfolding read_entries finalize_sysfs_info sysconf_online_cpus
cpu_info_detect qsort online files directory =
    let fallback : Info = record {
      logical_count = sysconf_online_cpus online;
      physical_count = sysconf_online_cpus online;
      has_smt = false;
      recommended_threads = sysconf_online_cpus online;
      entries = [];
    } in
    elim directory [
      | none ↦ fallback
      | some names ↦
          let found = read_entries files names 0 in
          if leb (length found) 0
          then fallback
          else finalize_sysfs_info (qsort (λ (a : Entry) (b : Entry). ltb a.id b.id) found)
    ]
