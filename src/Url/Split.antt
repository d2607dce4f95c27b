-- ===== src/Url/Split.antt =====
-- Where a text is split.
use btcrig.Base.{ℕ, ◌≡◌, refl, ap, true, false, none, some, List, [], ◌∷◌, ◌++◌, arith, ◌==◌, All}
use btcrig.Url.{before_first, split_last}

-- None of the bytes is `c`.
abbrev pub Lacks : ℕ → List ℕ → Type 0
Lacks c xs = All (λ x. (x == c) ≡ false) xs

pub before_first-append :
    (c : ℕ) (xs ys : List ℕ) → Lacks c xs → before_first c (xs ++ (c ∷ ys)) ≡ xs
unfolding before_first
before_first-append c [] ys h = let own : (c == c) ≡ true = ground arith in rw own refl
before_first-append c (x ∷ xs) ys h = rw h.0 (ap (◌∷◌ x) (before_first-append c xs ys h.1))

pub before_first_whole : (c : ℕ) (xs : List ℕ) → Lacks c xs → before_first c xs ≡ xs
unfolding before_first
before_first_whole c [] h = refl
before_first_whole c (x ∷ xs) h = rw h.0 (ap (◌∷◌ x) (before_first_whole c xs h.1))

split_last-none : (c : ℕ) (xs : List ℕ) → Lacks c xs → split_last c xs ≡ none
unfolding split_last
split_last-none c [] h = refl
split_last-none c (x ∷ xs) h = rw (split_last-none c xs h.1, h.0) refl

pub split_last-append :
    (c : ℕ) (xs ys : List ℕ) → Lacks c ys → split_last c (xs ++ (c ∷ ys)) ≡ some (xs, ys)
unfolding split_last
split_last-append c [] ys h =
    let own : (c == c) ≡ true = ground arith in rw (split_last-none c ys h, own) refl
split_last-append c (x ∷ xs) ys h = rw (split_last-append c xs ys h) refl
