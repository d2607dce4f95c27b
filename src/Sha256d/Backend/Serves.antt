-- ===== src/Sha256d/Backend/Serves.antt =====
-- The choice of a back end: names, availability, and the hash of a build without kernels.
use btcrig.Base.{ℕ, ◌≡◌, refl, inl, inr, true, none, some, List, ◌++◌, Bool-cases, length, All}
use btcrig.Word.Swap.{IsByte}
use btcrig.Sha256d.OpenSsl.{OpenSsl, IsFips}
use btcrig.Sha256d.Midstate.{midstate_prepare, sha256d_80}
use btcrig.Sha256d.Midstate.Header.{hash_openssl-IsHeaderHash, hash_fast_c-IsHeaderHash}
use btcrig.Sha256d.Backend.{
  Backend, openssl, fast_c, arm_sha2, x86_sha_ni, Build, backend_name, parse_backend,
  kernel_available, backend_available, auto_backend, set_backend, midstate_hash,
}

-- The name of a back end is parsed as that back end.
pub parse_backend-backend_name : (b : Backend) → parse_backend (backend_name b) ≡ some b
unfolding parse_backend backend_name
parse_backend-backend_name openssl = refl
parse_backend-backend_name fast_c = refl
parse_backend-backend_name arm_sha2 = refl
parse_backend-backend_name x86_sha_ni = refl

-- The automatic choice is available, and so is the back end after any setting of one.
pub backend_available-set_backend :
    {lib : OpenSsl} (build : Build lib) (g_backend backend : Backend)
    → backend_available build g_backend ≡ true
    → (backend_available build (auto_backend build) ≡ true)
      × (backend_available build (set_backend build g_backend backend).1 ≡ true)
unfolding auto_backend set_backend
backend_available-set_backend build g_backend backend h = (
  elim (Bool-cases (kernel_available build.x86)) [
    | inl e ↦ rw e e
    | inr e ↦ elim (Bool-cases (kernel_available build.arm)) [
      | inl e' ↦ rw (e, e') e'
      | inr e' ↦ rw (e, e') refl
    ]
  ],
  elim (Bool-cases (backend_available build backend)) [ inl e ↦ rw e e | inr e ↦ rw e h ],
)

-- A build with no accelerated kernel.
abbrev pub no_kernels : {lib : OpenSsl} → Build lib
no_kernels = record { arm = none; x86 = none }

-- In a build without kernels, with a library that implements FIPS 180-4, the hash of a header by any
-- back end at its midstate is its double SHA-256.
pub midstate_hash-sha256d_80 :
    (lib : OpenSsl) (junk : List ℕ) (b : Backend) (first tail : List ℕ)
    → IsFips lib
    → length junk ≡ 48
    → length first ≡ 64
    → All IsByte first
    → length tail ≡ 16
    → All IsByte tail
    → midstate_hash no_kernels junk b (midstate_prepare lib junk first) tail
      ≡ sha256d_80 lib (first ++ tail)
unfolding midstate_hash
midstate_hash-sha256d_80 lib junk b first tail fips hj hf bf ht bt =
    let by_openssl = hash_openssl-IsHeaderHash lib fips first hf bf junk in
    let by_fast_c = hash_fast_c-IsHeaderHash lib fips first hf bf junk junk hj hj in
    elim b
      as (λ c.
        midstate_hash no_kernels junk c (midstate_prepare lib junk first) tail
        ≡ sha256d_80 lib (first ++ tail)) [
          | openssl ↦ by_openssl.digest tail ht bt
          | fast_c ↦ by_fast_c.digest tail ht bt
          | arm_sha2 ↦ by_openssl.digest tail ht bt
          | x86_sha_ni ↦ by_openssl.digest tail ht bt
        ]
