-- ===== src/Job.antt =====
-- The construction of work in miner.c: miner_target_from_difficulty, miner_hash_difficulty,
-- miner_format_extranonce2 and miner_build_job. A `double` is a value of a parameter; a string is
-- the list of its bytes.
pub mod Target
pub mod Extranonce2
pub mod Builds
use btcrig.Base.{
  ℕ, zero, suc, ◌+◌, ◌-◌, ◌*◌, ◌/◌, ◌%◌, ◌^◌, ◌≤◌, ◌<◌, min, max, bit_and, bit_or, bit_xor, ◌≡◌,
  refl, sym, ap, ap₂, ◌∙◌, subst, ◌≢◌, ◌↔◌, ◌⊎◌, inl, inr, Bool, true, false, not, ◌&&◌, ◌||◌,
  Option, none, some, List, [], ◌∷◌, ◌++◌, map, arith, ltb, leb, ◌==◌, if◌then◌else◌, ltb→lt,
  lt→ltb, leb→le, ==_iff, tests, Bool-cases, Option-cases, length, get_or, set, take, drop,
  replicate, All, length-append, length-set, length-take, length-drop, length-replicate,
  take-append-drop, take_append, drop_append, get_or-set_self, get_or-set_ne, get_or-take,
  get_or_ext, All-append, All-take, All-drop, All-get_or, length-map, ◌>>=◌,
}
use btcrig.Word.{u8, shr}
use btcrig.CString.{copy_checked, copy_cut}
use btcrig.Hex.{hex_to_bytes, hex_to_alloc, hex_u32_to_le, prevhash_to_header_bytes}
use btcrig.Sha256d.OpenSsl.{OpenSsl}
use btcrig.Miner.{PublicJob}

-- What the source uses of `double`: its literals, which are whole numbers, and its operations. The
-- cast to `uint32_t` gives a number below 2 ^ 32.
pub record Doubles : Type 1 where
  pub Double : Type 0
  pub of_nat : ℕ → Double
  pub infinity : Double
  pub plus : Double → Double → Double
  pub times : Double → Double → Double
  pub over : Double → Double → Double
  pub minus : Double → Double → Double
  pub at_most : Double → Double → Bool
  pub below : Double → Double → Bool
  pub to_u32 : Double → ℕ

module _ (F : Doubles) where
  -- `while (mant >= 0x800000 && exp < 32)`, `room` being 32 - exp.
  pub shrink : ℕ → F.Double → ℕ → F.Double × ℕ
  shrink zero mant exp = (mant, exp)
  shrink (suc room) mant exp =
      let rest = shrink room (F.over mant (F.of_nat 256)) (exp + 1) in
      if F.at_most (F.of_nat 0x800000) mant then rest else (mant, exp)

  -- `while (mant > 0.0 && mant < 0x8000 && exp > 3)`, `room` being exp - 3.
  pub grow : ℕ → F.Double → ℕ → F.Double × ℕ
  grow zero mant exp = (mant, exp)
  grow (suc room) mant exp =
      let rest = grow room (F.times mant (F.of_nat 256)) (exp - 1) in
      if F.below (F.of_nat 0) mant && F.below mant (F.of_nat 0x8000) then rest else (mant, exp)

  -- The mantissa and the exponent after both loops.
  unfoldable pub compact : F.Double → F.Double × ℕ
  unfolding shrink grow
  compact difficulty =
      let positive = if F.at_most difficulty (F.of_nat 0) then F.of_nat 1 else difficulty in
      let (mant, exp) = shrink 3 (F.over (F.of_nat 65535) positive) 29 in grow (exp - 3) mant exp

-- `target[i] = be_target[31 - i]`, the first `n` bytes of the latter to go.
pub turned : ℕ → List ℕ → List ℕ
turned zero be = []
turned (suc n) be = get_or be n 0 ∷ turned n be

-- The tests on `idx`, which is 32 - exp, and the target that they choose.
unfoldable pub place : ℕ → ℕ → List ℕ
unfolding turned
place m exp =
    let idx = 32 - exp in
    let zeros = replicate 32 0 in
    let be = set (set (set zeros idx (u8 (shr m 16))) (idx + 1) (u8 (shr m 8))) (idx + 2) (u8 m) in
    if leb exp 32 && ltb (idx + 2) 32
    then turned 32 be
    else if ltb 32 exp
    then replicate 32 0xff
    else zeros

unfoldable pub target_from_difficulty : (F : Doubles) → F.Double → List ℕ
unfolding compact place
target_from_difficulty F difficulty =
    let (mant, exp) = compact F difficulty in place (F.to_u32 mant) exp

-- The loop of `miner_hash_difficulty` from byte `n - 1` down.
pub double_of_bytes : (F : Doubles) → ℕ → List ℕ → F.Double → F.Double
double_of_bytes F zero hash value = value
double_of_bytes F (suc n) hash value =
    double_of_bytes F n hash (F.plus (F.times value (F.of_nat 256)) (F.of_nat (get_or hash n 0)))

unfoldable pub hash_difficulty : (F : Doubles) → List ℕ → F.Double
unfolding double_of_bytes
hash_difficulty F hash =
    let value = double_of_bytes F 32 hash (F.of_nat 0) in
    if F.at_most value (F.of_nat 0)
    then F.infinity
    else F.over (F.of_nat 26959535291011309493156476344723991336010898738574164086137773096960)
        value

-- `%llx`: 16 digits are enough for 64 bits.
abbrev pub lower_digit : ℕ → ℕ
lower_digit d = if ltb d 10 then 48 + d else 87 + d

pub hex_digits : ℕ → ℕ → List ℕ
hex_digits zero value = []
hex_digits (suc fuel) value =
    let high = hex_digits fuel (value / 16) in
    if value / 16 == 0 then lower_digit value ∷ [] else high ++ (lower_digit (value % 16) ∷ [])

-- `%0*llx` with width `chars`: zeros before the digits up to the width.
unfoldable pub padded_hex : ℕ → ℕ → List ℕ
unfolding hex_digits
padded_hex chars value =
    let digits = hex_digits 16 value in replicate (chars - length digits) 48 ++ digits

-- A size below 0 does what 0 does.
unfoldable pub format_extranonce2 : ℕ → ℕ → ℕ → List ℕ
unfolding padded_hex copy_cut
format_extranonce2 out_size extranonce2_size value =
    let chars = extranonce2_size * 2 in
    if (chars == 0) || ltb out_size (chars + 1)
    then []
    else copy_cut out_size (padded_hex chars value)

-- The parameters of `miner_build_job` after `out`.
pub record Template (Double : Type 0) : Type 0 where
  pub job_id : List ℕ
  pub prevhash : List ℕ
  pub coinb1 : List ℕ
  pub coinb2 : List ℕ
  pub merkle : List (List ℕ)
  pub version : List ℕ
  pub nbits : List ℕ
  pub ntime : List ℕ
  pub extranonce1 : List ℕ
  pub extranonce2 : List ℕ
  pub difficulty : Double

module _ (lib : OpenSsl) where
  abbrev pub sha256d_data : List ℕ → List ℕ
  sha256d_data data_bytes = lib.sha256 (lib.sha256 data_bytes)

  -- The loop over the branches of the Merkle tree.
  pub merkle_loop : List (List ℕ) → List ℕ → Option (List ℕ)
  merkle_loop [] merkle_root = some merkle_root
  merkle_loop (hex ∷ merkle) merkle_root =
      hex_to_bytes hex 32 >>= λ branch. merkle_loop merkle (sha256d_data (merkle_root ++ branch))

  -- `none` is the -1, after which no caller looks at `out`.
  unfoldable pub build_job : (F : Doubles) → Template F.Double → Option PublicJob
  build_job F t = do
    job_id ← copy_checked 128 t.job_id
    extranonce2 ← copy_checked 32 t.extranonce2
    ntime ← copy_checked 16 t.ntime
    coinbase ← hex_to_alloc (t.coinb1 ++ (t.extranonce1 ++ (t.extranonce2 ++ t.coinb2)))
    merkle_root ← merkle_loop t.merkle (sha256d_data coinbase)
    version ← hex_u32_to_le t.version
    prevhash ← prevhash_to_header_bytes t.prevhash
    time ← hex_u32_to_le t.ntime
    nbits ← hex_u32_to_le t.nbits
    some (record {
      seq = 0;
      job_id = job_id;
      extranonce2 = extranonce2;
      ntime = ntime;
      header = version ++ (prevhash ++ (merkle_root ++ (time ++ (nbits ++ replicate 4 0))));
      target = target_from_difficulty F t.difficulty;
    })
