-- ===== src/Hex.antt =====
-- The hexadecimal readers of miner.c: hex_value, hex_to_bytes, hex_to_alloc, hex_u32_to_le and
-- prevhash_to_header_bytes. A string is the list of its bytes without the final zero, a read at its
-- end gives that zero. `none` is the -1, after which no caller looks at the output array.
pub mod RoundTrip
pub mod Header
use btcrig.Base.{
  ℕ, zero, suc, ◌+◌, ◌-◌, ◌*◌, ◌/◌, ◌%◌, ◌^◌, ◌≤◌, ◌<◌, min, max, bit_and, bit_or, bit_xor, ◌≡◌,
  refl, sym, ap, ap₂, ◌∙◌, subst, ◌≢◌, ◌↔◌, ◌⊎◌, inl, inr, Bool, true, false, not, ◌&&◌, ◌||◌,
  Option, none, some, List, [], ◌∷◌, ◌++◌, map, arith, ltb, leb, ◌==◌, if◌then◌else◌, ltb→lt,
  lt→ltb, leb→le, ==_iff, tests, Bool-cases, Option-cases, length, get_or, set, take, drop,
  replicate, All, length-append, length-set, length-take, length-drop, length-replicate,
  take-append-drop, take_append, drop_append, get_or-set_self, get_or-set_ne, get_or-take,
  get_or_ext, All-append, All-take, All-drop, All-get_or, length-map, ◌>>=◌,
}
use btcrig.Word.{u8}

unfoldable pub hex_value : ℕ → Option ℕ
hex_value c =
    if leb 48 c && leb c 57
    then some (c - 48)
    else if leb 97 c && leb c 102
    then some (c - 97 + 10)
    else if leb 65 c && leb c 70
    then some (c - 65 + 10)
    else none

-- The two digits of one byte: both are read before either is tested.
unfoldable pub byte_of : Option ℕ → Option ℕ → Option ℕ
byte_of none lo = none
byte_of (some hi) none = none
byte_of (some hi) (some lo) = some (u8 (bit_or (hi * 2 ^ 4) lo))

unfoldable pub cons_some : Option ℕ → Option (List ℕ) → Option (List ℕ)
cons_some none rest = none
cons_some (some b) none = none
cons_some (some b) (some bs) = some (b ∷ bs)

-- The loop of `hex_to_bytes`, `n` bytes to go, the string from `hex + 2 * i` on.
pub hex_loop : ℕ → List ℕ → Option (List ℕ)
unfolding hex_value byte_of cons_some
hex_loop zero hex = some []
hex_loop (suc n) hex =
    cons_some (byte_of (hex_value (get_or hex 0 0)) (hex_value (get_or hex 1 0)))
      (hex_loop n (drop 2 hex))

unfoldable pub hex_to_bytes : List ℕ → ℕ → Option (List ℕ)
unfolding hex_loop
hex_to_bytes hex out_len =
    if (length hex % 2 == 1) || not (length hex / 2 == out_len) then none else hex_loop out_len hex

-- When the allocation succeeds.
unfoldable pub hex_to_alloc : List ℕ → Option (List ℕ)
unfolding hex_to_bytes
hex_to_alloc hex = if length hex % 2 == 1 then none else hex_to_bytes hex (length hex / 2)

-- `out[0] = tmp[3]` to `out[3] = tmp[0]`.
unfoldable pub reversed4 : List ℕ → List ℕ
reversed4 tmp = get_or tmp 3 0 ∷ get_or tmp 2 0 ∷ get_or tmp 1 0 ∷ get_or tmp 0 0 ∷ []

unfoldable pub hex_u32_to_le : List ℕ → Option (List ℕ)
unfolding hex_to_bytes reversed4
hex_u32_to_le hex = hex_to_bytes hex 4 >>= λ tmp. some (reversed4 tmp)

unfoldable pub append_some : Option (List ℕ) → Option (List ℕ) → Option (List ℕ)
append_some none rest = none
append_some (some a) none = none
append_some (some a) (some b) = some (a ++ b)

-- The loop over the eight chunks of eight digits; the string is the one from `hex + i * 2` on.
pub prevhash_loop : ℕ → List ℕ → Option (List ℕ)
unfolding hex_u32_to_le append_some
prevhash_loop zero hex = some []
prevhash_loop (suc n) hex = append_some (hex_u32_to_le (take 8 hex)) (prevhash_loop n (drop 8 hex))

unfoldable pub prevhash_to_header_bytes : List ℕ → Option (List ℕ)
unfolding prevhash_loop
prevhash_to_header_bytes hex = if not (length hex == 64) then none else prevhash_loop 8 hex
