-- ===== src/Word/Swap.antt =====
-- The byte orders as arithmetic, and how loads, stores and the swap undo one another.
use btcrig.Base.{ℕ, ◌+◌, ◌*◌, ◌/◌, ◌%◌, ◌^◌, ◌<◌, bit_and, bit_or, ◌≡◌, List, [], ◌∷◌, arith}
use btcrig.Word.{shr, u8, bswap32, load_be32, load_le32, put_be32, store_le32}
use btcrig.Word.Fields.{bit_or_fields, bit_and_shifted, bit_and_ones, bit_or_low_first}

abbrev pub IsByte : ℕ → Type 0
IsByte b = b < 256

abbrev pub IsWord : ℕ → Type 0
IsWord w = w < 2 ^ 32

-- Four byte fields, the highest first.
or_high_first :
    (a b c d : ℕ)
    → IsByte b
    → IsByte c
    → IsByte d
    → bit_or (bit_or (bit_or (a * 2 ^ 24) (b * 2 ^ 16)) (c * 2 ^ 8)) d
      ≡ a * 2 ^ 24 + b * 2 ^ 16 + c * 2 ^ 8 + d
or_high_first a b c d hb hc hd = ground (
  arith,
  bit_or_fields 24 a (b * 2 ^ 16),
  bit_or_fields 16 (a * 2 ^ 8 + b) (c * 2 ^ 8),
  bit_or_fields 8 (a * 2 ^ 16 + b * 2 ^ 8 + c) d,
)

-- Four byte fields, the lowest first.
or_low_first :
    (a b c d : ℕ)
    → IsByte a
    → IsByte b
    → IsByte c
    → bit_or (bit_or (bit_or a (b * 2 ^ 8)) (c * 2 ^ 16)) (d * 2 ^ 24)
      ≡ a + b * 2 ^ 8 + c * 2 ^ 16 + d * 2 ^ 24
or_low_first a b c d ha hb hc = ground (
  arith,
  bit_or_low_first 8 b a,
  bit_or_low_first 16 c (b * 2 ^ 8 + a),
  bit_or_low_first 24 d (c * 2 ^ 16 + (b * 2 ^ 8 + a)),
)

pub load_be32_sum :
    (a b c d : ℕ) (rest : List ℕ)
    → IsByte a
    → IsByte b
    → IsByte c
    → IsByte d
    → load_be32 (a ∷ b ∷ c ∷ d ∷ rest) ≡ a * 2 ^ 24 + b * 2 ^ 16 + c * 2 ^ 8 + d
unfolding load_be32
load_be32_sum a b c d rest ha hb hc hd = ground (arith, or_high_first a b c d)

pub load_le32_sum :
    (a b c d : ℕ) (rest : List ℕ)
    → IsByte a
    → IsByte b
    → IsByte c
    → IsByte d
    → load_le32 (a ∷ b ∷ c ∷ d ∷ rest) ≡ a + b * 2 ^ 8 + c * 2 ^ 16 + d * 2 ^ 24
unfolding load_le32
load_le32_sum a b c d rest ha hb hc hd = ground (arith, or_low_first a b c d)

mask_byte : (k a : ℕ) → bit_and a (255 * 2 ^ k) ≡ a / 2 ^ k % 256 * 2 ^ k
mask_byte k a = ground (arith, bit_and_shifted k a 255, bit_and_ones 8 (a / 2 ^ k))

pub bswap32_sum :
    (v : ℕ)
    → IsWord v
    → bswap32 v
      ≡ v % 256 * 2 ^ 24 + v / 2 ^ 8 % 256 * 2 ^ 16 + v / 2 ^ 16 % 256 * 2 ^ 8 + v / 2 ^ 24 % 256
unfolding bswap32
bswap32_sum v h = ground (
  arith,
  mask_byte 0 v,
  mask_byte 8 v,
  mask_byte 16 v,
  mask_byte 24 v,
  or_high_first (v % 256) (v / 2 ^ 8 % 256) (v / 2 ^ 16 % 256) (v / 2 ^ 24 % 256),
)

pub load_be32-put_be32 : (v : ℕ) → IsWord v → load_be32 (put_be32 v) ≡ v
unfolding put_be32
load_be32-put_be32 v h = omega (
  arith,
  load_be32_sum (u8 (shr v 24)) (u8 (shr v 16)) (u8 (shr v 8)) (u8 v) [] (omega arith) (omega arith)
      (omega arith) (omega arith),
)

-- Loading in one order what was stored in the other swaps the bytes.
pub load_le32-put_be32 : (v : ℕ) → IsWord v → load_le32 (put_be32 v) ≡ bswap32 v
unfolding put_be32
load_le32-put_be32 v h = omega (
  arith,
  bswap32_sum v h,
  load_le32_sum (u8 (shr v 24)) (u8 (shr v 16)) (u8 (shr v 8)) (u8 v) [] (omega arith) (omega arith)
      (omega arith) (omega arith),
)

pub bswap32-IsWord : (v : ℕ) → IsWord v → IsWord (bswap32 v)
bswap32-IsWord v h = omega (arith, bswap32_sum v h)

pub bswap32-bswap32 : (v : ℕ) → IsWord v → bswap32 (bswap32 v) ≡ v
bswap32-bswap32 v h = omega (arith, bswap32_sum v h, bswap32_sum (bswap32 v) (bswap32-IsWord v h))

-- Storing a word low byte first, and loading it high byte first, swaps it too.
pub load_be32-store_le32 : (v : ℕ) → IsWord v → load_be32 (store_le32 v) ≡ bswap32 v
unfolding store_le32
load_be32-store_le32 v h = omega (
  arith,
  bswap32_sum v h,
  load_be32_sum (u8 v) (u8 (shr v 8)) (u8 (shr v 16)) (u8 (shr v 24)) [] (omega arith) (omega arith)
      (omega arith) (omega arith),
)
