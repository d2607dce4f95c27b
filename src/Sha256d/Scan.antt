-- ===== src/Sha256d/Scan.antt =====
-- `sha256d_scan_nonce_range_generic` of sha256d.c. What `on_match` does with a match is the
-- miner's: here the calls are listed in the order in which they are made.
pub mod Finds
use btcrig.Base.{
  ℕ, zero, suc, ◌+◌, ◌-◌, ◌*◌, ◌/◌, ◌%◌, ◌^◌, ◌≤◌, ◌<◌, min, max, bit_and, bit_or, bit_xor, ◌≡◌,
  refl, sym, ap, ap₂, ◌∙◌, subst, ◌≢◌, ◌↔◌, ◌⊎◌, inl, inr, Bool, true, false, not, ◌&&◌, ◌||◌,
  Option, none, some, List, [], ◌∷◌, ◌++◌, map, arith, ltb, leb, ◌==◌, if◌then◌else◌, ltb→lt,
  lt→ltb, leb→le, ==_iff, tests, Bool-cases, Option-cases, length, get_or, set, take, drop,
  replicate, All, length-append, length-set, length-take, length-drop, length-replicate,
  take-append-drop, take_append, drop_append, get_or-set_self, get_or-set_ne, get_or-take,
  get_or_ext, All-append, All-take, All-drop, All-get_or, length-map,
}
use btcrig.Word.{u32, bswap32}
use btcrig.Target.{hash_words_meet_target}

-- The arguments of a call of `on_match`.
pub record Match : Type 0 where
  pub nonce : ℕ
  pub hash_words : List ℕ

-- `hash` is the function that `sha256d_tail_words_func` returned, at the midstate; `called` is
-- `on_match != NULL`.
module _ (hash : List ℕ → List ℕ) (target_words : List ℕ) (start_nonce : ℕ) (called : Bool) where
  -- The loop at `i`, with `left` rounds to go. It writes the nonce into `tail_words[3]`.
  pub scan_loop : ℕ → ℕ → List ℕ → List Match
  scan_loop zero i tail_words = []
  scan_loop (suc left) i tail_words =
      let nonce = u32 (start_nonce + i) in
      let tail_words' = set tail_words 3 (bswap32 nonce) in
      let hash_words = hash tail_words' in
      let rest = scan_loop left (i + 1) tail_words' in
      if hash_words_meet_target hash_words target_words && called
      then record { nonce = nonce; hash_words = hash_words } ∷ rest
      else rest

  unfoldable pub scan_nonce_range : ℕ → List ℕ → List Match
  unfolding scan_loop
  scan_nonce_range nonce_count base_tail_words = scan_loop nonce_count 0 base_tail_words
