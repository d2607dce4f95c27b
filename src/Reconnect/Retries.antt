-- ===== src/Reconnect/Retries.antt =====
-- Sessions that fail: the pools are tried in turn, and the retries are counted.
use native.Mathlib.Nat.{mod-add-mod, mod-eq_of_lt, mod-lt}
use btcrig.Base.{
  ℕ, zero, suc, ◌+◌, ◌%◌, ◌^◌, ◌<◌, ◌≡◌, refl, sym, ap, ◌∙◌, subst, ◌≢◌, ◌⊎◌, inl, inr, Bool, true,
  false, ◌&&◌, Option, none, some, List, [], ◌∷◌, arith, ltb, ◌==◌, if◌then◌else◌, Bool-cases,
  Option-cases, length, get_or, All,
}
use btcrig.Reconnect.{
  Settings, unlimited, Run, Turn, PoolSession, retry_delay_seconds, donation_enabled, wait_seconds,
  fail_over, exhausted, retry, leave, again, after_session, follow, run,
}

-- The state behind a failed session that is followed by another.
abbrev pub failed_once : Settings → Run → Run
failed_once config s = record s {
  pool_index = (s.pool_index + 1) % config.pool_count;
  attempt = (s.attempt + 1) % 2 ^ 64;
}

pub fail_over-rotates :
    (config : Settings) (s : Run)
    → s.donating ≡ false
    → s.pool_index < config.pool_count
    → fail_over config s ≡ record s { pool_index = (s.pool_index + 1) % config.pool_count }
unfolding fail_over
fail_over-rotates config s user inside = elim (Bool-cases (ltb 1 config.pool_count)) [
  | inl several ↦ rw (user, several, fail_over) refl
  | inr one ↦
      let only : config.pool_count ≡ 1 = ground (arith, one) in
      let same : s.pool_index ≡ (s.pool_index + 1) % config.pool_count = rw only (omega arith) in
      rw (user, one, fail_over) (λ i. record s { pool_index = same i; donating = false })
]

pub not_zero : (n : ℕ) → n ≢ 0 → (n == 0) ≡ false
not_zero n h = ground arith

pub retry_cases :
    (config : Settings) (remaining : Option ℕ) (s : Run)
    → (retry config remaining s ≡ leave s)
      ⊎ ((slept : ℕ) × (retry config remaining s
            ≡ again slept (record s { attempt = (s.attempt + 1) % 2 ^ 64 })))
unfolding retry
retry_cases config remaining s = elim (Bool-cases (exhausted config.retries s.attempt)) [
  | inl full ↦ inl (rw (full, retry) refl)
  | inr room ↦
      elim (Option-cases
        (wait_seconds remaining (retry_delay_seconds config.reconnect_delay (s.attempt + 1)))) [
          | inl over ↦ inl (rw (room, over, retry) refl)
          | inr slept ↦ inr (slept.0, (rw (room, slept.1, retry) refl))
        ]
]

-- A session that failed is followed by the retry.
pub after_session_failed :
    (config : Settings) (t : Turn) (s : Run)
    → s.last_rc ≢ 0
    → after_session config t s
      ≡ (if t.over_after then leave s else retry config t.remaining (fail_over config s))
unfolding after_session
after_session_failed config t s failed =
    let off : (donation_enabled config && (s.last_rc == 0)) ≡ false =
      ap (λ b. donation_enabled config && b) (not_zero s.last_rc failed)
      ∙ never (donation_enabled config) in
    rw (off, after_session) refl
  where
    never : (b : Bool) → (b && false) ≡ false
    never true = refl
    never false = refl

-- A turn whose session fails.
abbrev pub Failing : Turn → Type 0
Failing t = t.rc ≢ 0

-- The i-th of a list of sessions
abbrev pub session_at : List PoolSession → ℕ → PoolSession
session_at l i = get_or l i (record { pool = 0; donated = false; phase = unlimited; result = 0 })

-- What a turn with a failed session of the user comes to.
pub user_failed :
    (config : Settings) (t : Turn) (s : Run)
    → s.last_rc ≢ 0
    → s.donating ≡ false
    → s.pool_index < config.pool_count
    → ((last : Run) × (after_session config t s ≡ leave last))
      ⊎ ((slept : ℕ) × (after_session config t s ≡ again slept (failed_once config s)))
user_failed config t s failed user inside =
    let rotated = fail_over-rotates config s user inside in
    let after =
      after_session_failed config t s failed
      ∙ ap (λ f. if t.over_after then leave s else retry config t.remaining f) rotated in
    elim (Bool-cases t.over_after) [
      | inl over ↦ inl (s, (after ∙ rw over refl))
      | inr goes_on ↦
          elim (retry_cases config t.remaining
            (record s { pool_index = (s.pool_index + 1) % config.pool_count })) [
              | inl full ↦ inl (
                record s { pool_index = (s.pool_index + 1) % config.pool_count },
                (after ∙ (rw goes_on full)),
              )
              | inr slept ↦ inr (slept.0, (after ∙ (rw goes_on slept.1)))
            ]
    ]

pub run_empty : (config : Settings) (s : Run) → run config [] s ≡ ([], none)
unfolding run
run_empty config s = refl

pub run_over :
    (config : Settings) (t : Turn) (ts : List Turn) (s : Run)
    → t.over_before ≡ true
    → run config (t ∷ ts) s ≡ ([], some s.last_rc)
unfolding run
run_over config t ts s over = rw (over, run) refl

pub run_goes :
    (config : Settings) (t : Turn) (ts : List Turn) (s : Run)
    → t.over_before ≡ false
    → run config (t ∷ ts) s
      ≡ follow
          (record {
            pool = s.pool_index;
            donated = s.donating;
            phase = s.phase_seconds;
            result = t.rc;
          })
          (after_session config t (record s { last_rc = t.rc }))
          (run config ts)
unfolding run
run_goes config t ts s goes = rw (goes, run) refl

abbrev pub RotatedAt : ℕ → ℕ → ℕ → List PoolSession → Type 0
RotatedAt pools first i l =
    ((session_at l i).pool ≡ (first + i) % pools) × ((session_at l i).donated ≡ false)

-- One session in front of a list that begins at the next pool.
pub RotatedAt-cons :
    (pools : ℕ) (session : PoolSession) (l : List PoolSession) (i : ℕ)
    → session.pool < pools
    → session.donated ≡ false
    → ((k : ℕ) → k < length l → RotatedAt pools ((session.pool + 1) % pools) k l)
    → i < suc (length l)
    → RotatedAt pools session.pool i (session ∷ l)
RotatedAt-cons pools session l zero inside user h within =
    let same : session.pool + 0 ≡ session.pool = omega arith in
    (sym (ap (λ n. n % pools) same ∙ mod-eq_of_lt inside), user)
RotatedAt-cons pools session l (suc i) inside user h within =
    let later = h i (omega arith) in
    let same : session.pool + 1 + i ≡ session.pool + suc i = omega arith in
    (later.0 ∙ mod-add-mod (session.pool + 1) pools i ∙ ap (λ n. n % pools) same, later.1)

-- As long as the user's sessions fail, the i-th of them is opened on the i-th pool behind the first one,
-- around the list of pools, and none is the donation's.
pub run-rotates :
    (config : Settings) (ts : List Turn) (s : Run) (i : ℕ)
    → All Failing ts
    → s.donating ≡ false
    → s.pool_index < config.pool_count
    → i < length (run config ts s).0
    → ((session_at (run config ts s).0 i).pool ≡ (s.pool_index + i) % config.pool_count)
      × ((session_at (run config ts s).0 i).donated ≡ false)
unfolding follow
run-rotates config [] s i failing user inside within =
    absurd (omega (arith, ap (λ r. length r.0) (run_empty config s)))
run-rotates config (t ∷ ts) s i failing user inside within = elim (Bool-cases t.over_before) [
  | inl over ↦ absurd (omega (arith, ap (λ r. length r.0) (run_over config t ts s over)))
  | inr goes ↦
      let first : PoolSession = record {
        pool = s.pool_index;
        donated = s.donating;
        phase = s.phase_seconds;
        result = t.rc;
      } in
      let begun : Run = record s { last_rc = t.rc } in
      let step = run_goes config t ts s goes in
      elim (user_failed config t begun failing.0 user inside) [
        | inl last ↦
            let whole : (run config (t ∷ ts) s).0 ≡ first ∷ [] =
              ap (λ r. r.0) (step ∙ ap (λ n. follow first n (run config ts)) last.1) in
            let one = ap length whole in
            subst (RotatedAt config.pool_count s.pool_index i) (sym whole) (
              RotatedAt-cons config.pool_count first [] i inside user (λ k h. absurd (omega arith))
                (omega arith))
        | inr slept ↦
            let later = failed_once config begun in
            let rest = (run config ts later).0 in
            let whole : (run config (t ∷ ts) s).0 ≡ first ∷ rest =
              ap (λ r. r.0) (step ∙ ap (λ n. follow first n (run config ts)) slept.1) in
            let longer = ap length whole in
            let next_inside = mod-lt (s.pool_index + 1) (lt-positive inside) in
            subst (RotatedAt config.pool_count s.pool_index i) (sym whole) (
              RotatedAt-cons config.pool_count first rest i inside user
                (λ (k : ℕ) (h : k < length rest).
                  run-rotates config ts later k failing.1 user next_inside h)
                (omega arith))
      ]
]
  where
    lt-positive : {p n : ℕ} → p < n → 0 < n
    lt-positive h = omega arith
