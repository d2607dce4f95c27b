-- ===== src/Sha256d/Compress/Schedule.antt =====
-- The first loop of `sha256_compress_words`, in place, builds the message schedule.
use mathlib.Core.List.{reverse, reverse-cons, reverse-reverse}
use btcrig.Fips
use btcrig.Base.{
  ℕ, zero, suc, ◌+◌, ◌-◌, ◌≤◌, ◌<◌, ◌≡◌, refl, sym, ap, ap₂, ◌∙◌, List, [], ◌∷◌, ◌++◌, arith,
  length, get_or, set, take, length-set, length-take, get_or-set_self, get_or-set_ne, get_or-take,
}
use btcrig.Sha256d.Compress.{schedule_word, expand}

-- The first `n` words of the array, the newest first.
abbrev newest : ℕ → List ℕ → List ℕ
newest zero w = []
newest (suc n) w = get_or w n 0 ∷ newest n w

newest-cons : (n x : ℕ) (w : List ℕ) → newest (suc n) (x ∷ w) ≡ newest n w ++ (x ∷ [])
newest-cons zero x w = refl
newest-cons (suc n) x w = ap (◌∷◌ (get_or w n 0)) (newest-cons n x w)

newest_all : (n : ℕ) (w : List ℕ) → n ≡ length w → newest n w ≡ reverse w
newest_all zero [] e = refl
newest_all (suc n) [] e = absurd (omega arith)
newest_all zero (x ∷ w) e = absurd (omega arith)
newest_all (suc n) (x ∷ w) e =
    newest-cons n x w
    ∙ ap (λ t. t ++ (x ∷ [])) (newest_all n w (omega arith))
    ∙ sym (reverse-cons x w)

get_or-newest : (n j : ℕ) (w : List ℕ) → j < n → get_or (newest n w) j 0 ≡ get_or w (n - 1 - j) 0
get_or-newest zero j w h = absurd (omega arith)
get_or-newest (suc n) zero w h = ap (λ (t : ℕ). get_or w t 0) (omega arith)
get_or-newest (suc n) (suc j) w h =
    get_or-newest n j w (omega arith) ∙ ap (λ (t : ℕ). get_or w t 0) (omega arith)

-- A write at or past `n` is not among the first `n`.
newest-set : (n i v : ℕ) (w : List ℕ) → n ≤ i → newest n (set w i v) ≡ newest n w
newest-set zero i v w h = refl
newest-set (suc n) i v w h =
    ap₂ ◌∷◌ (get_or-set_ne w i n v 0 (omega arith)) (newest-set n i v w (omega arith))

-- The word that the loop stores is the next one of the schedule.
schedule_word-newest :
    (i : ℕ) (w : List ℕ) → 16 ≤ i → schedule_word w i ≡ Fips.next_word (newest i w)
unfolding schedule_word Fips.next_word
schedule_word-newest i w h =
    let at : (j : ℕ) → j < 16 → get_or (newest i w) j 0 ≡ get_or w (i - (j + 1)) 0 =
      λ j p. get_or-newest i j w (omega arith) ∙ ap (λ (t : ℕ). get_or w t 0) (omega arith) in
    rw (at 15 (omega arith), at 14 (omega arith), at 6 (omega arith), at 1 (omega arith)) refl

expand-newest :
    (left i end : ℕ) (w : List ℕ)
    → 16 ≤ i
    → i + left ≡ end
    → end ≤ length w
    → newest end (expand left i w) ≡ Fips.extend left (newest i w)
unfolding expand Fips.extend
expand-newest zero i end w low e h = let same : end ≡ i = omega arith in rw same refl
expand-newest (suc left) i end w low e h =
    let v = schedule_word w i in
    let step : i + 1 ≡ suc i = omega arith in
    expand-newest left (i + 1) end (set w i v) (omega arith) (omega arith) (rw length-set h)
    ∙ ap (λ (t : ℕ). Fips.extend left (newest t (set w i v))) step
    ∙ ap₂ (λ x xs. Fips.extend left (x ∷ xs))
        (get_or-set_self w i v 0 (omega arith) ∙ schedule_word-newest i w low)
        (newest-set i i v w (omega arith))

pub length-expand : (left i : ℕ) (w : List ℕ) → length (expand left i w) ≡ length w
unfolding expand
length-expand zero i w = refl
length-expand (suc left) i w =
    length-expand left (i + 1) (set w i (schedule_word w i)) ∙ length-set w i (schedule_word w i)

newest-take : (n m : ℕ) (w : List ℕ) → n ≤ m → newest n w ≡ newest n (take m w)
newest-take zero m w h = refl
newest-take (suc n) m w h =
    ap₂ ◌∷◌ (sym (get_or-take m w n 0 (omega arith))) (newest-take n m w (omega arith))

-- After the loop the array holds the schedule of its first sixteen words, whatever the others held.
pub expand-message_schedule :
    (w : List ℕ) → length w ≡ 64 → expand 48 16 w ≡ Fips.message_schedule (take 16 w)
unfolding Fips.message_schedule
expand-message_schedule w e =
    let first : newest 16 w ≡ reverse (take 16 w) =
      newest-take 16 16 w (omega arith)
      ∙ newest_all 16 (take 16 w) (omega (arith, length-take 16 w)) in
    let last : newest 64 (expand 48 16 w) ≡ reverse (expand 48 16 w) =
      newest_all 64 (expand 48 16 w) (omega (arith, length-expand 48 16 w)) in
    sym (reverse-reverse (expand 48 16 w))
    ∙ ap reverse (
        sym last
        ∙ expand-newest 48 16 64 w (omega arith) (omega arith) (omega arith)
        ∙ ap (Fips.extend 48) first)
