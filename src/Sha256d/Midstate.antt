-- ===== src/Sha256d/Midstate.antt =====
-- The midstate hashing of sha256d.c: the first 64 bytes of a header are compressed once per job,
-- and each nonce costs the two compressions of the tail. An array that the code fills from the
-- first to the last byte is built here by `++`.
pub mod Blocks
pub mod Backends
pub mod Header
use btcrig.Base.{
  ℕ, zero, suc, ◌+◌, ◌-◌, ◌*◌, ◌/◌, ◌%◌, ◌^◌, ◌≤◌, ◌<◌, min, max, bit_and, bit_or, bit_xor, ◌≡◌,
  refl, sym, ap, ap₂, ◌∙◌, subst, ◌≢◌, ◌↔◌, ◌⊎◌, inl, inr, Bool, true, false, not, ◌&&◌, ◌||◌,
  Option, none, some, List, [], ◌∷◌, ◌++◌, map, arith, ltb, leb, ◌==◌, if◌then◌else◌, ltb→lt,
  lt→ltb, leb→le, ==_iff, tests, Bool-cases, Option-cases, length, get_or, set, take, drop,
  replicate, All, length-append, length-set, length-take, length-drop, length-replicate,
  take-append-drop, take_append, drop_append, get_or-set_self, get_or-set_ne, get_or-take,
  get_or_ext, All-append, All-take, All-drop, All-get_or, length-map,
}
use btcrig.Word.{load_be32, put_be32, put_be64}
use btcrig.Sha256d.OpenSsl.{OpenSsl}
use btcrig.Sha256d.Constants.{initial_state}
use btcrig.Sha256d.Compress.{compress_words, compress_block, load_block}

-- The bytes of an array of words: `put_be32(out + i * 4, words[i])` for each.
unfoldable pub words_to_hash : List ℕ → List ℕ
words_to_hash [] = []
words_to_hash (w ∷ ws) = put_be32 w ++ words_to_hash ws

-- `sha256d_80_midstate_hash_fast_c` after its copy of the midstate: `tail` is `tail_words`, and
-- `junk` is what the words behind the first sixteen of `w` hold. The second compression reuses
-- the array of the first.
unfoldable pub hash_fast_c : List ℕ → List ℕ → List ℕ → List ℕ
hash_fast_c junk fast_state tail =
    let w = tail ++ (0x8000_0000 ∷ replicate 10 0) ++ (80 * 8 ∷ junk) in
    let (first_state, w') = compress_words fast_state w in
    let v = first_state ++ (0x8000_0000 ∷ replicate 6 0) ++ (32 * 8 ∷ drop 16 w') in
    (compress_words initial_state v).0

module _ (lib : OpenSsl) where
  -- `sha256_midstate_t`.
  pub record Midstate : Type 0 where
    pub ctx : lib.Ctx
    pub second_ctx : lib.Ctx
    pub fast_state : List ℕ

  pub sha256d_80 : List ℕ → List ℕ
  sha256d_80 header = lib.sha256 (lib.sha256 header)

  pub midstate_prepare : List ℕ → List ℕ → Midstate
  midstate_prepare junk header_first64 = record {
    ctx = lib.update lib.init header_first64;
    second_ctx = lib.init;
    fast_state = compress_block junk initial_state header_first64;
  }

  pub hash_openssl : Midstate → List ℕ → List ℕ
  hash_openssl state tail =
      let first_block = words_to_hash tail ++ (0x80 ∷ replicate 39 0 ++ put_be64 (80 * 8)) in
      let ctx = lib.transform state.ctx first_block in
      let second_block =
        words_to_hash (lib.words ctx) ++ (0x80 ∷ replicate 23 0 ++ put_be64 (32 * 8)) in
      lib.words (lib.transform state.second_ctx second_block)
