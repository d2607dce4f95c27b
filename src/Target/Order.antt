-- ===== src/Target/Order.antt =====
-- Both tests compare little-endian numbers.
use native.Mathlib.Nat.{pow-suc, pow-zero}
use btcrig.Base.{
  ℕ, zero, suc, ◌+◌, ◌*◌, ◌^◌, ◌≤◌, ◌<◌, ◌≡◌, refl, sym, ap, ◌∙◌, arith, List, [], ◌∷◌, length,
  get_or, All, All-get_or, map, length-map, ltb, leb, if◌then◌else◌, true, false,
}
use btcrig.Word.{bswap32}
use btcrig.Word.Swap.{IsByte, IsWord, bswap32-IsWord}
use btcrig.Target.{hash_words_loop, hash_loop}

-- The number whose digits to the base `b` are the first `n` elements, the lowest first.
unfoldable pub value : ℕ → ℕ → List ℕ → ℕ
value b zero l = 0
value b (suc n) l = value b n l + get_or l n 0 * b ^ n

-- A digit more is a whole unit more.
unit_step : (h t u : ℕ) → h < t → h * u + u ≤ t * u
unit_step h t u p = grind arith

pub value-lt : (b n : ℕ) (l : List ℕ) → n ≤ length l → All (λ d. d < b) l → value b n l < b ^ n
unfolding value
value-lt b zero l h all = omega (arith, pow-zero b)
value-lt b (suc n) l h all = omega (
  arith,
  pow-suc b n,
  value-lt b n l (omega arith) all,
  unit_step (get_or l n 0) b (b ^ n) (All-get_or (λ d. d < b) l n 0 (omega arith) all),
)

-- A comparison that looks at the highest digit first.
value-cmp :
    (u x y h t : ℕ)
    → x < u
    → y < u
    → leb (x + h * u) (y + t * u) ≡ (if ltb h t then true else if ltb t h then false else leb x y)
value-cmp u x y h t hx hy = ground (arith, unit_step h t u, unit_step t h u)

-- A map on each digit read: the words of the hash are swapped first.
abbrev pub swapped : List ℕ → List ℕ
swapped ws = map bswap32 ws

get_or-swapped :
    (ws : List ℕ) (i : ℕ) → i < length ws → get_or (swapped ws) i 0 ≡ bswap32 (get_or ws i 0)
get_or-swapped [] i h = absurd (omega arith)
get_or-swapped (w ∷ ws) zero h = refl
get_or-swapped (w ∷ ws) (suc i) h = get_or-swapped ws i (omega arith)

swapped-IsWord : (ws : List ℕ) → All IsWord ws → All IsWord (swapped ws)
swapped-IsWord [] h = tt
swapped-IsWord (w ∷ ws) h = (bswap32-IsWord w h.0, swapped-IsWord ws h.1)

pub hash_loop-value :
    (n : ℕ) (hash target : List ℕ)
    → n ≤ length hash
    → n ≤ length target
    → All IsByte hash
    → All IsByte target
    → hash_loop n hash target ≡ leb (value 256 n hash) (value 256 n target)
unfolding hash_loop value
hash_loop-value zero hash target lh lt bh bt = refl
hash_loop-value (suc n) hash target lh lt bh bt =
    ap
      (λ r.
        if ltb (get_or hash n 0) (get_or target n 0)
        then true
        else if ltb (get_or target n 0) (get_or hash n 0)
        then false
        else r)
      (hash_loop-value n hash target (omega arith) (omega arith) bh bt)
    ∙ sym (
        value-cmp (256 ^ n) (value 256 n hash) (value 256 n target) (get_or hash n 0)
          (get_or target n 0) (value-lt 256 n hash (omega arith) bh)
          (value-lt 256 n target (omega arith) bt))

pub hash_words_loop-value :
    (n : ℕ) (ws target : List ℕ)
    → n ≤ length ws
    → n ≤ length target
    → All IsWord ws
    → All IsWord target
    → hash_words_loop n ws target ≡ leb (value (2 ^ 32) n (swapped ws)) (value (2 ^ 32) n target)
unfolding hash_words_loop value
hash_words_loop-value zero ws target lh lt bh bt = refl
hash_words_loop-value (suc n) ws target lh lt bh bt =
    let top = get_or-swapped ws n (omega arith) in
    rw top (
      ap
        (λ r.
          if ltb (bswap32 (get_or ws n 0)) (get_or target n 0)
          then true
          else if ltb (get_or target n 0) (bswap32 (get_or ws n 0))
          then false
          else r)
        (hash_words_loop-value n ws target (omega arith) (omega arith) bh bt)
      ∙ sym (
          value-cmp ((2 ^ 32) ^ n) (value (2 ^ 32) n (swapped ws)) (value (2 ^ 32) n target)
            (bswap32 (get_or ws n 0)) (get_or target n 0)
            (value-lt (2 ^ 32) n (swapped ws) (omega (arith, length-map bswap32 ws))
              (swapped-IsWord ws bh))
            (value-lt (2 ^ 32) n target (omega arith) bt)))
