-- ===== src/Sha256d/Backend.antt =====
-- The choice of a back end in sha256d.c. A kernel is what an accelerated file gives when it is
-- compiled in: its test of the processor, its function on tail words and its scan.
pub mod Serves
use btcrig.Base.{
  ℕ, zero, suc, ◌+◌, ◌-◌, ◌*◌, ◌/◌, ◌%◌, ◌^◌, ◌≤◌, ◌<◌, min, max, bit_and, bit_or, bit_xor, ◌≡◌,
  refl, sym, ap, ap₂, ◌∙◌, subst, ◌≢◌, ◌↔◌, ◌⊎◌, inl, inr, Bool, true, false, not, ◌&&◌, ◌||◌,
  Option, none, some, List, [], ◌∷◌, ◌++◌, map, arith, ltb, leb, ◌==◌, if◌then◌else◌, ltb→lt,
  lt→ltb, leb→le, ==_iff, tests, Bool-cases, Option-cases, length, get_or, set, take, drop,
  replicate, All, length-append, length-set, length-take, length-drop, length-replicate,
  take-append-drop, take_append, drop_append, get_or-set_self, get_or-set_ne, get_or-take,
  get_or_ext, All-append, All-take, All-drop, All-get_or, length-map, ◌>>=◌,
}
use btcrig.CString.{codes, same_text}
use btcrig.Sha256d.OpenSsl.{OpenSsl}
use btcrig.Sha256d.Compress.{load_block}
use btcrig.Sha256d.Midstate.{Midstate, hash_openssl, hash_fast_c, words_to_hash}
use btcrig.Sha256d.Scan.{Match, scan_nonce_range}

-- `sha256d_backend_t`
pub data Backend : Type 0 where
  openssl : Backend
  fast_c : Backend
  arm_sha2 : Backend
  x86_sha_ni : Backend

pub record Kernel (lib : OpenSsl) : Type 0 where
  pub available : Bool
  pub tail_words : Midstate lib → List ℕ → List ℕ
  pub nonce_range : Midstate lib → List ℕ → List ℕ → ℕ → ℕ → Bool → List Match

-- A kernel that is not compiled in is `none`.
pub record Build (lib : OpenSsl) : Type 0 where
  pub arm : Option (Kernel lib)
  pub x86 : Option (Kernel lib)

unfoldable pub backend_name : Backend → List ℕ
backend_name openssl = codes "openssl"
backend_name fast_c = codes "fast-c"
backend_name arm_sha2 = codes "arm-sha2"
backend_name x86_sha_ni = codes "x86-sha-ni"

pub is_one_of : List ℕ → List (List ℕ) → Bool
is_one_of text [] = false
is_one_of text (name ∷ names) = same_text text name || is_one_of text names

-- The spellings that `sha256d_parse_backend` tries, for each back end.
abbrev pub openssl_names : List (List ℕ)
openssl_names = (codes "openssl") ∷ (codes "ossl") ∷ []

abbrev pub fast_c_names : List (List ℕ)
fast_c_names = (codes "fast-c") ∷ (codes "fastc") ∷ (codes "portable") ∷ (codes "c") ∷ []

abbrev pub arm_sha2_names : List (List ℕ)
arm_sha2_names = (codes "arm-sha2") ∷ (codes "armv8-sha2") ∷ (codes "sha2") ∷ (codes "neon") ∷ []

abbrev pub x86_sha_ni_names : List (List ℕ)
x86_sha_ni_names =
    (codes "x86-sha-ni") ∷ (codes "x86-shani") ∷ (codes "sha-ni") ∷ (codes "shani") ∷ []

-- `none` is the -1.
unfoldable pub parse_backend : List ℕ → Option Backend
unfolding is_one_of
parse_backend text =
    if is_one_of text openssl_names
    then some openssl
    else if is_one_of text fast_c_names
    then some fast_c
    else if is_one_of text arm_sha2_names
    then some arm_sha2
    else if is_one_of text x86_sha_ni_names
    then some x86_sha_ni
    else none

module _ {lib : OpenSsl} where
  unfoldable pub kernel_available : Option (Kernel lib) → Bool
  kernel_available none = false
  kernel_available (some kernel) = kernel.available

  unfoldable pub backend_available : Build lib → Backend → Bool
  unfolding kernel_available
  backend_available build openssl = true
  backend_available build fast_c = true
  backend_available build arm_sha2 = kernel_available build.arm
  backend_available build x86_sha_ni = kernel_available build.x86

  unfoldable pub auto_backend : Build lib → Backend
  unfolding backend_available
  auto_backend build =
      if backend_available build x86_sha_ni
      then x86_sha_ni
      else if backend_available build arm_sha2
      then arm_sha2
      else openssl

  -- The result 0 is `true`; `g_backend` goes in and out.
  unfoldable pub set_backend : Build lib → Backend → Backend → Bool × Backend
  unfolding backend_available
  set_backend build g_backend backend =
      if not (backend_available build backend) then (false, g_backend) else (true, backend)

  unfoldable pub kernel_tail_words : Option (Kernel lib) → Midstate lib → List ℕ → List ℕ
  kernel_tail_words none = hash_openssl lib
  kernel_tail_words (some kernel) = kernel.tail_words

  -- `junk` is what the local arrays of the fast-c back end hold.
  unfoldable pub tail_words_func : Build lib → List ℕ → Backend → Midstate lib → List ℕ → List ℕ
  unfolding kernel_tail_words
  tail_words_func build junk openssl = hash_openssl lib
  tail_words_func build junk fast_c = λ state tail. hash_fast_c junk state.fast_state tail
  tail_words_func build junk arm_sha2 = kernel_tail_words build.arm
  tail_words_func build junk x86_sha_ni = kernel_tail_words build.x86

  -- The generic scan, which asks for the function on tail words itself.
  unfoldable pub generic_range :
      Build lib → List ℕ → Backend → Midstate lib → List ℕ → List ℕ → ℕ → ℕ → Bool → List Match
  unfolding tail_words_func
  generic_range build junk g_backend state tail target start count called =
      scan_nonce_range (tail_words_func build junk g_backend state) target start called count tail

  unfoldable pub kernel_range :
      Option (Kernel lib)
      → Build lib
      → List ℕ
      → Backend
      → Midstate lib
      → List ℕ
      → List ℕ
      → ℕ
      → ℕ
      → Bool
      → List Match
  unfolding generic_range
  kernel_range none build junk g_backend = generic_range build junk g_backend
  kernel_range (some kernel) build junk g_backend = kernel.nonce_range

  unfoldable pub nonce_range_func :
      Build lib → List ℕ → Backend → Midstate lib → List ℕ → List ℕ → ℕ → ℕ → Bool → List Match
  unfolding kernel_range
  nonce_range_func build junk openssl = generic_range build junk openssl
  nonce_range_func build junk fast_c = generic_range build junk fast_c
  nonce_range_func build junk arm_sha2 = kernel_range build.arm build junk arm_sha2
  nonce_range_func build junk x86_sha_ni = kernel_range build.x86 build junk x86_sha_ni

  -- `sha256d_80_midstate_hash_words`, which loads the words, and `sha256d_80_midstate_hash`.
  unfoldable pub midstate_hash_words : Build lib → List ℕ → Backend → Midstate lib → List ℕ → List ℕ
  unfolding tail_words_func
  midstate_hash_words build junk g_backend state header_tail16 =
      tail_words_func build junk g_backend state (load_block 4 header_tail16)

  unfoldable pub midstate_hash : Build lib → List ℕ → Backend → Midstate lib → List ℕ → List ℕ
  unfolding midstate_hash_words
  midstate_hash build junk g_backend state header_tail16 =
      words_to_hash (midstate_hash_words build junk g_backend state header_tail16)
