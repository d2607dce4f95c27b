-- ===== src/Sha256d/OpenSsl.antt =====
-- What sha256d.c uses of libcrypto: a parameter of the model. `SHA256_CTX` is the type `Ctx`, and
-- `ctx.h[8]` the field `words`.
use btcrig.Fips
use btcrig.Base.{ℕ, ◌≡◌, List, length, All}
use btcrig.Word.Swap.{IsByte}
use btcrig.Sha256d.Constants.{initial_state}

pub record OpenSsl : Type 1 where
  pub Ctx : Type 0
  pub words : Ctx → List ℕ
  -- SHA256_Init, SHA256_Update, SHA256_Transform and the one-shot SHA256.
  pub init : Ctx
  pub update : Ctx → List ℕ → Ctx
  pub transform : Ctx → List ℕ → Ctx
  pub sha256 : List ℕ → List ℕ

-- The documented behaviour: the functions implement FIPS 180-4.
pub record IsFips (lib : OpenSsl) : Type 0 where
  pub words_init : lib.words lib.init ≡ initial_state
  -- A whole block fed to a fresh context is compressed at once.
  pub words_update :
      (block : List ℕ)
      → length block ≡ 64
      → All IsByte block
      → lib.words (lib.update lib.init block)
        ≡ Fips.compress (lib.words lib.init) (Fips.to_words block)
  pub words_transform :
      (ctx : lib.Ctx) (block : List ℕ)
      → length block ≡ 64
      → All IsByte block
      → lib.words (lib.transform ctx block) ≡ Fips.compress (lib.words ctx) (Fips.to_words block)
  pub sha256_digest :
      (message : List ℕ) → All IsByte message → lib.sha256 message ≡ Fips.sha256 message
