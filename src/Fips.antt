-- ===== src/Fips.antt =====
-- The SHA-256 of FIPS 180-4 as a specification, with no array and no index loop: the message
-- schedule is a list that grows, newest word first, the rounds run over the schedule and the
-- constants side by side, and a message is padded, cut into blocks and folded. It shares with the
-- code the word operations and the two tables.
use mathlib.Core.List.{reverse}
use btcrig.Base.{
  ℕ, zero, suc, ◌+◌, ◌-◌, ◌*◌, ◌/◌, ◌%◌, ◌^◌, bit_and, bit_xor, List, [], ◌∷◌, ◌++◌, length, get_or,
  take, drop, replicate,
}
use btcrig.Word.{u32, shr, rotr32}
use btcrig.Sha256d.Constants.{initial_state, round_constants}

lower_sigma0 : ℕ → ℕ
lower_sigma0 x = bit_xor (bit_xor (rotr32 x 7) (rotr32 x 18)) (shr x 3)

lower_sigma1 : ℕ → ℕ
lower_sigma1 x = bit_xor (bit_xor (rotr32 x 17) (rotr32 x 19)) (shr x 10)

upper_sigma0 : ℕ → ℕ
upper_sigma0 x = bit_xor (bit_xor (rotr32 x 2) (rotr32 x 13)) (rotr32 x 22)

upper_sigma1 : ℕ → ℕ
upper_sigma1 x = bit_xor (bit_xor (rotr32 x 6) (rotr32 x 11)) (rotr32 x 25)

choose : ℕ → ℕ → ℕ → ℕ
choose x y z = bit_xor (bit_and x y) (bit_and (2 ^ 32 - 1 - x) z)

majority : ℕ → ℕ → ℕ → ℕ
majority x y z = bit_xor (bit_xor (bit_and x y) (bit_and x z)) (bit_and y z)

-- The schedule with its newest word first, and `n` words longer.
unfoldable pub next_word : List ℕ → ℕ
unfolding lower_sigma0 lower_sigma1
next_word ws =
    u32 (
      get_or ws 15 0 + lower_sigma0 (get_or ws 14 0) + get_or ws 6 0 + lower_sigma1 (get_or ws 1 0))

unfoldable pub extend : ℕ → List ℕ → List ℕ
extend zero ws = ws
extend (suc n) ws = extend n (next_word ws ∷ ws)

unfoldable pub message_schedule : List ℕ → List ℕ
message_schedule block = reverse (extend 48 (reverse block))

-- One round on the eight working variables.
unfoldable pub round : ℕ → ℕ → List ℕ → List ℕ
unfolding upper_sigma0 upper_sigma1 choose majority
round k w (a ∷ b ∷ c ∷ d ∷ e ∷ f ∷ g ∷ h ∷ []) =
    let t1 = u32 (h + upper_sigma1 e + choose e f g + k + w) in
    let t2 = u32 (upper_sigma0 a + majority a b c) in
    u32 (t1 + t2) ∷ a ∷ b ∷ c ∷ u32 (d + t1) ∷ e ∷ f ∷ g ∷ []
round k w s = s

unfoldable pub rounds : List ℕ → List ℕ → List ℕ → List ℕ
rounds (k ∷ ks) (w ∷ ws) s = rounds ks ws (round k w s)
rounds _ _ s = s

unfoldable pub add_words : List ℕ → List ℕ → List ℕ
add_words (x ∷ xs) (y ∷ ys) = u32 (x + y) ∷ add_words xs ys
add_words _ _ = []

-- The state after a block of sixteen words.
unfoldable pub compress : List ℕ → List ℕ → List ℕ
compress s block = add_words s (rounds round_constants (message_schedule block) s)

-- Big-endian words of a string of bytes, and bytes of words.
unfoldable pub to_words : List ℕ → List ℕ
to_words (a ∷ b ∷ c ∷ d ∷ r) = (a * 2 ^ 24 + b * 2 ^ 16 + c * 2 ^ 8 + d) ∷ to_words r
to_words _ = []

unfoldable pub to_bytes : List ℕ → List ℕ
to_bytes [] = []
to_bytes (w ∷ ws) =
    (w / 2 ^ 24 % 256) ∷ (w / 2 ^ 16 % 256) ∷ (w / 2 ^ 8 % 256) ∷ (w % 256) ∷ to_bytes ws

-- A one bit, zeros up to 56 bytes past a whole block, and the length in bits as eight bytes.
unfoldable pub pad : List ℕ → List ℕ
pad m =
    m
    ++ (0x80 ∷ replicate ((119 - length m % 64) % 64) 0
        ++ to_bytes (length m * 8 / 2 ^ 32 ∷ u32 (length m * 8) ∷ []))

unfoldable pub fold_blocks : ℕ → List ℕ → List ℕ → List ℕ
fold_blocks zero s p = s
fold_blocks (suc n) s p = fold_blocks n (compress s (to_words (take 64 p))) (drop 64 p)

-- The final state, and the digest, of a message shorter than 2 ^ 61 bytes.
unfoldable pub final_state : List ℕ → List ℕ
final_state m = fold_blocks (length (pad m) / 64) initial_state (pad m)

unfoldable pub sha256 : List ℕ → List ℕ
sha256 m = to_bytes (final_state m)
