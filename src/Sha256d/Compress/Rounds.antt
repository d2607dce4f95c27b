-- ===== src/Sha256d/Compress/Rounds.antt =====
-- The second loop of `sha256_compress_words`, by index, runs the rounds of the specification.
use btcrig.Fips
use btcrig.Base.{
  ℕ, zero, suc, ◌+◌, ◌<◌, ◌≡◌, refl, sym, ap, ◌∙◌, List, [], ◌∷◌, arith, length, get_or, drop,
}
use btcrig.Sha256d.Constants.{round_constants}
use btcrig.Sha256d.Compress.{Regs, round, rounds, load_regs, add_regs}

-- The eight variables as the list of the specification.
abbrev pub listed : Regs → List ℕ
listed r = r.a ∷ r.b ∷ r.c ∷ r.d ∷ r.e ∷ r.f ∷ r.g ∷ r.h ∷ []

listed-round : (k w : ℕ) (r : Regs) → listed (round k w r) ≡ Fips.round k w (listed r)
unfolding round Fips.round
listed-round k w r = refl

drop-get_or : (i : ℕ) (w : List ℕ) → i < length w → drop i w ≡ get_or w i 0 ∷ drop (i + 1) w
drop-get_or zero [] h = absurd (omega arith)
drop-get_or zero (x ∷ w) h = refl
drop-get_or (suc i) [] h = absurd (omega arith)
drop-get_or (suc i) (x ∷ w) h =
    let step : suc i + 1 ≡ suc (i + 1) = omega arith in rw step (drop-get_or i w (omega arith))

drop_all : (n : ℕ) (w : List ℕ) → n ≡ length w → drop n w ≡ []
drop_all zero [] e = refl
drop_all zero (x ∷ w) e = absurd (omega arith)
drop_all (suc n) [] e = absurd (omega arith)
drop_all (suc n) (x ∷ w) e = drop_all n w (omega arith)

-- The loop from index `i` runs over what stands there and behind.
loop_over :
    (left i : ℕ) (ks w : List ℕ) (r : Regs)
    → length ks ≡ length w
    → i + left ≡ length w
    → ks ≡ round_constants
    → listed (rounds left i w r) ≡ Fips.rounds (drop i ks) (drop i w) (listed r)
unfolding rounds Fips.rounds
loop_over zero i ks w r l e c = rw (drop_all i ks (omega arith)) refl
loop_over (suc left) i ks w r l e c =
    rw (drop-get_or i ks (omega arith), drop-get_or i w (omega arith))
      (loop_over left (i + 1) ks w _ l (omega arith) c
        ∙ ap (Fips.rounds (drop (i + 1) ks) (drop (i + 1) w)) (
            listed-round (get_or round_constants i 0) (get_or w i 0) r
            ∙ ap (λ t. Fips.round (get_or t i 0) (get_or w i 0) (listed r)) (sym c)))

pub listed-rounds :
    (w : List ℕ) (r : Regs)
    → length w ≡ 64
    → listed (rounds 64 0 w r) ≡ Fips.rounds round_constants w (listed r)
listed-rounds w r e = loop_over 64 0 round_constants w r (omega arith) (omega arith) refl

-- The final additions.
pub add_regs-add_words :
    (s : List ℕ) (r : Regs) → length s ≡ 8 → add_regs s r ≡ Fips.add_words s (listed r)
unfolding add_regs Fips.add_words
add_regs-add_words (a ∷ b ∷ c ∷ d ∷ e ∷ f ∷ g ∷ h ∷ []) r l = refl
add_regs-add_words _ r l = absurd (omega arith)

pub listed-load_regs : (s : List ℕ) → length s ≡ 8 → listed (load_regs s) ≡ s
unfolding load_regs
listed-load_regs (a ∷ b ∷ c ∷ d ∷ e ∷ f ∷ g ∷ h ∷ []) l = refl
listed-load_regs _ l = absurd (omega arith)
