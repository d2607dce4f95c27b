-- ===== src/Target.antt =====
-- The two tests of a hash against a target: `hash_words_meet_target` of sha256d.c on the words of
-- the digest, and `miner_hash_meets_target` of miner.c on its bytes. Both loops run from the last
-- element of the arrays to the first.
pub mod Order
pub mod Agree
use btcrig.Base.{
  ℕ, zero, suc, ◌+◌, ◌-◌, ◌*◌, ◌/◌, ◌%◌, ◌^◌, ◌≤◌, ◌<◌, min, max, bit_and, bit_or, bit_xor, ◌≡◌,
  refl, sym, ap, ap₂, ◌∙◌, subst, ◌≢◌, ◌↔◌, ◌⊎◌, inl, inr, Bool, true, false, not, ◌&&◌, ◌||◌,
  Option, none, some, List, [], ◌∷◌, ◌++◌, map, arith, ltb, leb, ◌==◌, if◌then◌else◌, ltb→lt,
  lt→ltb, leb→le, ==_iff, tests, Bool-cases, Option-cases, length, get_or, set, take, drop,
  replicate, All, length-append, length-set, length-take, length-drop, length-replicate,
  take-append-drop, take_append, drop_append, get_or-set_self, get_or-set_ne, get_or-take,
  get_or_ext, All-append, All-take, All-drop, All-get_or, length-map,
}
use btcrig.Word.{bswap32, load_le32}

-- The loop with `n` elements left, the last of them at index `n - 1`.
pub hash_words_loop : ℕ → List ℕ → List ℕ → Bool
hash_words_loop zero hash_words target_words = true
hash_words_loop (suc i) hash_words target_words =
    let h = bswap32 (get_or hash_words i 0) in
    let t = get_or target_words i 0 in
    let rest = hash_words_loop i hash_words target_words in
    if ltb h t then true else if ltb t h then false else rest

unfoldable pub hash_words_meet_target : List ℕ → List ℕ → Bool
unfolding hash_words_loop
hash_words_meet_target hash_words target_words = hash_words_loop 8 hash_words target_words

pub hash_loop : ℕ → List ℕ → List ℕ → Bool
hash_loop zero hash target = true
hash_loop (suc i) hash target =
    let h = get_or hash i 0 in
    let t = get_or target i 0 in
    let rest = hash_loop i hash target in if ltb h t then true else if ltb t h then false else rest

unfoldable pub hash_meets_target : List ℕ → List ℕ → Bool
unfolding hash_loop
hash_meets_target hash target = hash_loop 32 hash target

-- `target_words[i] = load_le32(target + i * 4)`, for `n` words.
unfoldable pub load_target : ℕ → List ℕ → List ℕ
load_target zero p = []
load_target (suc n) p = load_le32 p ∷ load_target n (drop 4 p)
