-- ===== src/Sha256d/Compress.antt =====
-- `sha256_compress_words` and `sha256_compress_block` of sha256d.c. The arrays `state[8]` and
-- `w[64]` are lists; the function writes both, so it returns both.
mod Schedule
mod Rounds
pub mod Refines
use btcrig.Base.{
  ℕ, zero, suc, ◌+◌, ◌-◌, ◌*◌, ◌/◌, ◌%◌, ◌^◌, ◌≤◌, ◌<◌, min, max, bit_and, bit_or, bit_xor, ◌≡◌,
  refl, sym, ap, ap₂, ◌∙◌, subst, ◌≢◌, ◌↔◌, ◌⊎◌, inl, inr, Bool, true, false, not, ◌&&◌, ◌||◌,
  Option, none, some, List, [], ◌∷◌, ◌++◌, map, arith, ltb, leb, ◌==◌, if◌then◌else◌, ltb→lt,
  lt→ltb, leb→le, ==_iff, tests, Bool-cases, Option-cases, length, get_or, set, take, drop,
  replicate, All, length-append, length-set, length-take, length-drop, length-replicate,
  take-append-drop, take_append, drop_append, get_or-set_self, get_or-set_ne, get_or-take,
  get_or_ext, All-append, All-take, All-drop, All-get_or, length-map,
}
use btcrig.Word.{u32, shr, rotr32, load_be32}
use btcrig.Sha256d.Constants.{round_constants}

-- The local variables `a` to `h`.
pub record Regs : Type 0 where
  pub a : ℕ
  pub b : ℕ
  pub c : ℕ
  pub d : ℕ
  pub e : ℕ
  pub f : ℕ
  pub g : ℕ
  pub h : ℕ

-- `~x` on 32 bits.
abbrev pub not32 : ℕ → ℕ
not32 x = 2 ^ 32 - 1 - x

-- The value that the first loop stores into `w[i]`.
pub schedule_word : List ℕ → ℕ → ℕ
schedule_word w i =
    let x = get_or w (i - 15) 0 in
    let y = get_or w (i - 2) 0 in
    let s0 = bit_xor (bit_xor (rotr32 x 7) (rotr32 x 18)) (shr x 3) in
    let s1 = bit_xor (bit_xor (rotr32 y 17) (rotr32 y 19)) (shr y 10) in
    u32 (get_or w (i - 16) 0 + s0 + get_or w (i - 7) 0 + s1)

-- The first loop at index `i`, with `left` rounds to go.
pub expand : ℕ → ℕ → List ℕ → List ℕ
expand zero i w = w
expand (suc left) i w = expand left (i + 1) (set w i (schedule_word w i))

-- The body of the second loop, with the round's constant and word.
pub round : ℕ → ℕ → Regs → Regs
round k w r =
    let s1 = bit_xor (bit_xor (rotr32 r.e 6) (rotr32 r.e 11)) (rotr32 r.e 25) in
    let ch = bit_xor (bit_and r.e r.f) (bit_and (not32 r.e) r.g) in
    let temp1 = u32 (r.h + s1 + ch + k + w) in
    let s0 = bit_xor (bit_xor (rotr32 r.a 2) (rotr32 r.a 13)) (rotr32 r.a 22) in
    let maj = bit_xor (bit_xor (bit_and r.a r.b) (bit_and r.a r.c)) (bit_and r.b r.c) in
    let temp2 = u32 (s0 + maj) in
    record {
      a = u32 (temp1 + temp2);
      b = r.a;
      c = r.b;
      d = r.c;
      e = u32 (r.d + temp1);
      f = r.e;
      g = r.f;
      h = r.g;
    }

pub rounds : ℕ → ℕ → List ℕ → Regs → Regs
rounds zero i w r = r
rounds (suc left) i w r =
    rounds left (i + 1) w (round (get_or round_constants i 0) (get_or w i 0) r)

pub load_regs : List ℕ → Regs
load_regs s = record {
  a = get_or s 0 0;
  b = get_or s 1 0;
  c = get_or s 2 0;
  d = get_or s 3 0;
  e = get_or s 4 0;
  f = get_or s 5 0;
  g = get_or s 6 0;
  h = get_or s 7 0;
}

-- `state[0] += a` to `state[7] += h`.
pub add_regs : List ℕ → Regs → List ℕ
add_regs s r =
    u32 (get_or s 0 0 + r.a)
    ∷ u32 (get_or s 1 0 + r.b)
    ∷ u32 (get_or s 2 0 + r.c)
    ∷ u32 (get_or s 3 0 + r.d)
    ∷ u32 (get_or s 4 0 + r.e)
    ∷ u32 (get_or s 5 0 + r.f)
    ∷ u32 (get_or s 6 0 + r.g)
    ∷ u32 (get_or s 7 0 + r.h)
    ∷ []

unfoldable pub compress_words : List ℕ → List ℕ → List ℕ × List ℕ
unfolding expand schedule_word rounds round load_regs add_regs
compress_words state w =
    let w' = expand 48 16 w in (add_regs state (rounds 64 0 w' (load_regs state)), w')

-- `w[i] = load_be32(block + i * 4)` for `n` words, the pointer moving along.
unfoldable pub load_block : ℕ → List ℕ → List ℕ
load_block zero p = []
load_block (suc n) p = load_be32 p ∷ load_block n (drop 4 p)

-- The 48 words behind those loaded are not initialised: `junk` is what they hold.
unfoldable pub compress_block : List ℕ → List ℕ → List ℕ → List ℕ
compress_block junk state block = (compress_words state (load_block 16 block ++ junk)).0
