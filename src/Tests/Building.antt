-- ===== src/Tests/Building.antt =====
-- Tests and instances of the theorems on the readers of hexadecimal and on the construction of work.
use btcrig.Base.{
  ℕ, ◌+◌, ◌-◌, ◌*◌, ◌/◌, ◌%◌, ◌^◌, ◌<◌, ◌≡◌, refl, none, some, [], ◌∷◌, arith, ltb, leb, length,
  replicate,
}
use btcrig.Target.Order.{value}
use btcrig.Hex.{hex_to_bytes}
use btcrig.Hex.RoundTrip.{to_hex, Spelt, hex_to_bytes-Spelt}
use btcrig.Sha256d.OpenSsl.{OpenSsl}
use btcrig.Job.{Doubles, compact, target_from_difficulty, format_extranonce2, build_job}
use btcrig.Job.Target.{value-target_from_difficulty}
use btcrig.Job.Extranonce2.{bytes_of, hex_to_bytes-format_extranonce2, length-format_extranonce2}
use btcrig.Job.Builds.{Parts, IsWell, printed, header_of, build_job-printed}

-- Whole numbers stand for doubles where the tests need an instance.
abbrev whole : Doubles
whole = record {
  Double = ℕ;
  of_nat = λ n. n;
  infinity = 0;
  plus = λ a b. a + b;
  times = λ a b. a * b;
  over = λ a b. a / b;
  minus = λ a b. a - b;
  at_most = λ a b. leb a b;
  below = λ a b. ltb a b;
  to_u32 = λ a. a % 2 ^ 32;
}

-- Difficulty 1 has the target 0xffff * 2 ^ 208.
target_one : value 256 32 (target_from_difficulty whole 1) ≡ 0xffff * 2 ^ 208
unfolding target_from_difficulty value
target_one = refl

-- Either case of a digit is read.
mixed_case : hex_to_bytes (b'a' ∷ b'F' ∷ b'0' ∷ b'9' ∷ []) 2 ≡ some (0xaf ∷ 0x09 ∷ [])
unfolding hex_to_bytes
mixed_case = refl

odd_length : hex_to_bytes (b'a' ∷ b'F' ∷ b'0' ∷ []) 2 ≡ none
unfolding hex_to_bytes
odd_length = refl

counter_printed : format_extranonce2 32 2 0x1ab ≡ b'0' ∷ b'1' ∷ b'a' ∷ b'b' ∷ []
unfolding format_extranonce2
counter_printed = refl

-- The counter 256 in one byte comes out with three digits.
counter_too_long : format_extranonce2 32 1 256 ≡ b'1' ∷ b'0' ∷ b'0' ∷ []
unfolding format_extranonce2
counter_too_long = refl

hex_to_bytes-Spelt_example : Spelt (b'a' ∷ b'F' ∷ []) 1 (hex_to_bytes (b'a' ∷ b'F' ∷ []) 1)
hex_to_bytes-Spelt_example = hex_to_bytes-Spelt (b'a' ∷ b'F' ∷ []) 1

value-target_from_difficulty_example :
    value 256 32 (target_from_difficulty whole 7)
    ≡ whole.to_u32 (compact whole 7).0 % 2 ^ 24 * 256 ^ ((compact whole 7).1 - 3)
value-target_from_difficulty_example = value-target_from_difficulty whole 7

hex_to_bytes-format_extranonce2_example :
    hex_to_bytes (format_extranonce2 32 2 0x1ab) 2 ≡ some (bytes_of 2 0x1ab)
hex_to_bytes-format_extranonce2_example =
    hex_to_bytes-format_extranonce2 32 1 0x1ab (omega arith) (omega arith) (omega arith)

length-format_extranonce2_example : 2 < length (format_extranonce2 32 1 256)
length-format_extranonce2_example =
    length-format_extranonce2 32 0 256 (omega arith) (omega arith) (omega arith)

abbrev constant_lib : OpenSsl
constant_lib = record {
  Ctx = Unit;
  words = λ c. [];
  init = tt;
  update = λ c block. tt;
  transform = λ c block. tt;
  sha256 = λ message. replicate 32 (length message);
}

abbrev parts : Parts ℕ
parts = record {
  job_id = b'j' ∷ [];
  prevhash = replicate 32 9;
  coinb1 = 1 ∷ [];
  extranonce1 = 2 ∷ [];
  extranonce2 = 3 ∷ [];
  coinb2 = 4 ∷ [];
  branches = replicate 32 5 ∷ [];
  version = 0 ∷ 0 ∷ 0 ∷ 1 ∷ [];
  nbits = 1 ∷ 2 ∷ 3 ∷ 4 ∷ [];
  ntime = 5 ∷ 6 ∷ 7 ∷ 8 ∷ [];
  difficulty = 1;
}

parts-IsWell : IsWell parts
parts-IsWell = record {
  job_id = omega arith;
  prevhash = (refl, omega arith);
  coinb1 = omega arith;
  extranonce1 = omega arith;
  extranonce2 = omega arith;
  short = omega arith;
  coinb2 = omega arith;
  branches = ((refl, omega arith), tt);
  version = (refl, omega arith);
  nbits = (refl, omega arith);
  ntime = (refl, omega arith);
}

build_job-printed_example :
    build_job constant_lib whole (printed parts)
    ≡ some (record {
      seq = 0;
      job_id = b'j' ∷ [];
      extranonce2 = to_hex (3 ∷ []);
      ntime = to_hex (5 ∷ 6 ∷ 7 ∷ 8 ∷ []);
      header = header_of constant_lib parts;
      target = target_from_difficulty whole 1;
    })
build_job-printed_example = build_job-printed constant_lib whole parts parts-IsWell
