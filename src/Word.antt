-- ===== src/Word.antt =====
-- The 32-bit helpers of sha256d.c, miner.c and main.c: rotation, byte swap, and the loads and
-- stores in both byte orders. A `uint32_t` is a number with its wrap written out, a byte pointer
-- is the list of the bytes from there on. Where the source has a compiler builtin beside portable
-- C under `#if`, the portable C is translated.
mod Digits
pub mod Fields
pub mod Swap
pub mod Rotate
use btcrig.Base.{
  ℕ, zero, suc, ◌+◌, ◌-◌, ◌*◌, ◌/◌, ◌%◌, ◌^◌, ◌≤◌, ◌<◌, min, max, bit_and, bit_or, bit_xor, ◌≡◌,
  refl, sym, ap, ap₂, ◌∙◌, subst, ◌≢◌, ◌↔◌, ◌⊎◌, inl, inr, Bool, true, false, not, ◌&&◌, ◌||◌,
  Option, none, some, List, [], ◌∷◌, ◌++◌, map, arith, ltb, leb, ◌==◌, if◌then◌else◌, ltb→lt,
  lt→ltb, leb→le, ==_iff, tests, Bool-cases, Option-cases, length, get_or, set, take, drop,
  replicate, All, length-append, length-set, length-take, length-drop, length-replicate,
  take-append-drop, take_append, drop_append, get_or-set_self, get_or-set_ne, get_or-take,
  get_or_ext, All-append, All-take, All-drop, All-get_or, length-map,
}

abbrev pub u8 : ℕ → ℕ
u8 n = n % 2 ^ 8

abbrev pub u32 : ℕ → ℕ
u32 n = n % 2 ^ 32

abbrev pub u64 : ℕ → ℕ
u64 n = n % 2 ^ 64

-- `x >> k` and, in 32 bits, `x << k`.
abbrev pub shr : ℕ → ℕ → ℕ
shr x k = x / 2 ^ k

abbrev pub shl32 : ℕ → ℕ → ℕ
shl32 x k = u32 (x * 2 ^ k)

unfoldable pub rotr32 : ℕ → ℕ → ℕ
rotr32 x n = bit_or (shr x n) (shl32 x (32 - n))

unfoldable pub bswap32 : ℕ → ℕ
bswap32 v =
    bit_or
      (bit_or (bit_or (shl32 (bit_and v 0x0000_00ff) 24) (shl32 (bit_and v 0x0000_ff00) 8))
        (shr (bit_and v 0x00ff_0000) 8))
      (shr (bit_and v 0xff00_0000) 24)

unfoldable pub load_be32 : List ℕ → ℕ
load_be32 p =
    bit_or
      (bit_or (bit_or (shl32 (get_or p 0 0) 24) (shl32 (get_or p 1 0) 16)) (shl32 (get_or p 2 0) 8))
      (get_or p 3 0)

unfoldable pub load_le32 : List ℕ → ℕ
load_le32 p =
    bit_or (bit_or (bit_or (get_or p 0 0) (shl32 (get_or p 1 0) 8)) (shl32 (get_or p 2 0) 16))
      (shl32 (get_or p 3 0) 24)

-- The four bytes that `put_be32` writes.
unfoldable pub put_be32 : ℕ → List ℕ
put_be32 v = u8 (shr v 24) ∷ u8 (shr v 16) ∷ u8 (shr v 8) ∷ u8 v ∷ []

-- The eight bytes that `put_be64` writes: its loop runs from the last byte to the first.
put_be64_loop : ℕ → ℕ → List ℕ → List ℕ
put_be64_loop zero v out = out
put_be64_loop (suc i) v out = put_be64_loop i (shr v 8) (u8 v ∷ out)

unfoldable pub put_be64 : ℕ → List ℕ
unfolding put_be64_loop
put_be64 v = put_be64_loop 8 v []

-- `store_le32` of main.c.
unfoldable pub store_le32 : ℕ → List ℕ
store_le32 v = u8 v ∷ u8 (shr v 8) ∷ u8 (shr v 16) ∷ u8 (shr v 24) ∷ []
