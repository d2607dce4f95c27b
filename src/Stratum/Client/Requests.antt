-- ===== src/Stratum/Client/Requests.antt =====
-- Lists of requests that are in order.
use mathlib.Core.List.{append-nil}
use btcrig.Base.{
  ℕ, suc, ◌+◌, ◌≤◌, ◌≡◌, refl, sym, ap, ap₂, ◌∙◌, Bool, true, false, List, [], ◌∷◌, ◌++◌, arith,
  length, length-append, range_from, range_from-suc,
}
use btcrig.Miner.{Share}
use btcrig.Stratum.Client.{Request, subscribe, authorize, suggest_difficulty, submit}

abbrev pub flag : Bool → ℕ
flag true = 1
flag false = 0

flag_bound : (b : Bool) → flag b ≤ 1
flag_bound true = omega arith
flag_bound false = omega arith

module _ {D : Type 0} where
  -- The ids of the submitted shares, in their order.
  abbrev pub submit_ids : List (Request D) → List ℕ
  submit_ids [] = []
  submit_ids (subscribe ∷ l) = submit_ids l
  submit_ids (authorize user password ∷ l) = submit_ids l
  submit_ids (suggest_difficulty d ∷ l) = submit_ids l
  submit_ids (submit id user share ∷ l) = id ∷ submit_ids l

  abbrev pub authorizations : List (Request D) → ℕ
  authorizations [] = 0
  authorizations (subscribe ∷ l) = authorizations l
  authorizations (authorize user password ∷ l) = suc (authorizations l)
  authorizations (suggest_difficulty d ∷ l) = authorizations l
  authorizations (submit id user share ∷ l) = authorizations l

  abbrev pub suggestions : List (Request D) → ℕ
  suggestions [] = 0
  suggestions (subscribe ∷ l) = suggestions l
  suggestions (authorize user password ∷ l) = suggestions l
  suggestions (suggest_difficulty d ∷ l) = suc (suggestions l)
  suggestions (submit id user share ∷ l) = suggestions l

  abbrev pub subscriptions : List (Request D) → ℕ
  subscriptions [] = 0
  subscriptions (subscribe ∷ l) = suc (subscriptions l)
  subscriptions (authorize user password ∷ l) = subscriptions l
  subscriptions (suggest_difficulty d ∷ l) = subscriptions l
  subscriptions (submit id user share ∷ l) = subscriptions l

  submit_ids-append :
      (xs ys : List (Request D)) → submit_ids (xs ++ ys) ≡ submit_ids xs ++ submit_ids ys
  submit_ids-append [] ys = refl
  submit_ids-append (subscribe ∷ l) ys = submit_ids-append l ys
  submit_ids-append (authorize user password ∷ l) ys = submit_ids-append l ys
  submit_ids-append (suggest_difficulty d ∷ l) ys = submit_ids-append l ys
  submit_ids-append (submit id user share ∷ l) ys = ap (◌∷◌ id) (submit_ids-append l ys)

  counts-append :
      (xs ys : List (Request D))
      → (subscriptions (xs ++ ys) ≡ subscriptions xs + subscriptions ys)
        × (authorizations (xs ++ ys) ≡ authorizations xs + authorizations ys)
        × (suggestions (xs ++ ys) ≡ suggestions xs + suggestions ys)
  counts-append [] ys = omega arith
  counts-append (subscribe ∷ l) ys = omega (arith, counts-append l ys)
  counts-append (authorize user password ∷ l) ys = omega (arith, counts-append l ys)
  counts-append (suggest_difficulty d ∷ l) ys = omega (arith, counts-append l ys)
  counts-append (submit id user share ∷ l) ys = omega (arith, counts-append l ys)

  -- What holds of the requests at any time: the subscription comes first and once, the shares have the
  -- ids from 4 on in their order, and the two other requests are sent once at most.
  pub record InOrder (l : List (Request D)) : Type 0 where
    pub begins : (rest : List (Request D)) × (l ≡ subscribe ∷ rest)
    pub subscribed_once : subscriptions l ≡ 1
    pub ids : submit_ids l ≡ range_from 4 (length (submit_ids l))
    pub authorized_once : authorizations l ≤ 1
    pub suggested_once : suggestions l ≤ 1

  -- The same with the variables of the loop.
  pub record Ordered (authorize_sent suggest_sent : Bool) (next : ℕ) (l : List (Request D))
      : Type 0 where
    pub begins : (rest : List (Request D)) × (l ≡ subscribe ∷ rest)
    pub subscribed_once : subscriptions l ≡ 1
    pub ids : submit_ids l ≡ range_from 4 (length (submit_ids l))
    pub authorized : authorizations l ≡ flag authorize_sent
    pub suggested : suggestions l ≡ flag suggest_sent
    pub next_id : next ≡ 4 + length (submit_ids l)

  pub Ordered-InOrder : (a s : Bool) (n : ℕ) (l : List (Request D)) → Ordered a s n l → InOrder l
  Ordered-InOrder a s n l h =
      let first = h.authorized in
      let second = h.suggested in
      record {
        begins = h.begins;
        subscribed_once = h.subscribed_once;
        ids = h.ids;
        authorized_once = omega (arith, flag_bound a);
        suggested_once = omega (arith, flag_bound s);
      }

  begins-append :
      (l more : List (Request D))
      → ((rest : List (Request D)) × (l ≡ subscribe ∷ rest))
      → (rest : List (Request D)) × (l ++ more ≡ subscribe ∷ rest)
  begins-append l more h = (h.0 ++ more, ap (λ k. k ++ more) h.1)

  pub Ordered-submit :
      (a s : Bool) (n : ℕ) (l : List (Request D)) (user : List ℕ) (share : Share D)
      → Ordered a s n l
      → Ordered a s (n + 1) (l ++ (submit n user share ∷ []))
  Ordered-submit a s n l user share h =
      let more = counts-append l (submit n user share ∷ []) in
      let ids = submit_ids-append l (submit n user share ∷ []) in
      let longer = ap length ids ∙ length-append (submit_ids l) (n ∷ []) in
      let next = h.next_id in
      let count : suc (length (submit_ids l))
          ≡ length (submit_ids (l ++ (submit n user share ∷ []))) =
        omega arith in
      record {
        begins = begins-append l _ h.begins;
        subscribed_once = omega (arith, h.subscribed_once);
        ids =
            ids
            ∙ ap₂ (λ k m. k ++ (m ∷ [])) h.ids next
            ∙ sym (range_from-suc 4 (length (submit_ids l)))
            ∙ ap (range_from 4) count;
        authorized = omega (arith, h.authorized);
        suggested = omega (arith, h.suggested);
        next_id = omega arith;
      }

  -- A request without a share behind the others.
  pub Ordered-append :
      (a s a' s' : Bool) (n : ℕ) (l : List (Request D)) (request : Request D)
      → submit_ids (request ∷ []) ≡ []
      → subscriptions (request ∷ []) ≡ 0
      → flag a' ≡ flag a + authorizations (request ∷ [])
      → flag s' ≡ flag s + suggestions (request ∷ [])
      → Ordered a s n l
      → Ordered a' s' n (l ++ (request ∷ []))
  Ordered-append a s a' s' n l request no_share no_start ea es h =
      let more = counts-append l (request ∷ []) in
      let same : submit_ids (l ++ (request ∷ [])) ≡ submit_ids l =
        submit_ids-append l (request ∷ [])
        ∙ ap (λ k. submit_ids l ++ k) no_share
        ∙ append-nil (submit_ids l) in
      let count = ap length same in
      let next = h.next_id in
      record {
        begins = begins-append l _ h.begins;
        subscribed_once = omega (arith, h.subscribed_once);
        ids = same ∙ h.ids ∙ ap (range_from 4) (sym count);
        authorized = omega (arith, h.authorized);
        suggested = omega (arith, h.suggested);
        next_id = omega arith;
      }
