-- ===== src/Reconnect/Donation.antt =====
-- When the donation mines: only behind a session of the user that ran its whole phase, for as long as
-- the level says, on the user's pool.
use btcrig.Base.{
  ℕ, ◌+◌, ◌-◌, ◌*◌, ◌%◌, ◌^◌, ◌≡◌, refl, sym, ap, ◌∙◌, subst, ◌≢◌, ◌⊎◌, inl, inr, Bool, true, false,
  ◌&&◌, ◌||◌, Option, List, [], ◌∷◌, arith, ltb, ◌==◌, if◌then◌else◌, Bool-cases,
}
use btcrig.Reconnect.Retries.{retry_cases, run_empty, run_over, run_goes}
use btcrig.Reconnect.{
  Settings, Phase, unlimited, initial, seconds, Run, Turn, PoolSession, donation_phase_seconds,
  donation_enabled, run_init, swap_phase, fail_over, retry, Next, leave, again, after_session,
  follow, run,
}

-- Every donated session stands directly behind a session of the user with result 0 on its pool;
-- `before` is the session in front of the list.
abbrev pub Earned : PoolSession → List PoolSession → Type 0
Earned before [] = Unit
Earned before (x ∷ xs) =
    ((x.donated ≡ false)
      ⊎ ((before.donated ≡ false) × (before.result ≡ 0) × (before.pool ≡ x.pool)))
    × Earned x xs

-- How long a session may last: `seen` says that the donation has mined before it, `donated` that it is
-- the donation's itself. A cycle has a hundred minutes, of which the donation has its level.
abbrev pub phase_of : Settings → Bool → Bool → Phase
phase_of config seen true = seconds (config.donate_level * 60)
phase_of config true false = seconds ((100 - config.donate_level) * 60)
phase_of config false false =
    if config.mining_enabled && ltb 0 config.donate_level then initial else unlimited

-- The phases of sessions in their order.
abbrev pub Timed : Settings → Bool → List PoolSession → Type 0
Timed config seen [] = Unit
Timed config seen (x ∷ xs) =
    (x.phase ≡ phase_of config seen x.donated) × Timed config (seen || x.donated) xs

-- What the loop's variables say, behind the session `before`; `seen` is whether the donation has mined.
record Scheduled (config : Settings) (before : PoolSession) (seen : Bool) (s : Run) : Type 0 where
  allowed : (s.donating ≡ false) ⊎ (donation_enabled config ≡ true)
  timed : s.phase_seconds ≡ phase_of config seen s.donating
  behind :
      (s.donating ≡ false)
      ⊎ ((before.donated ≡ false) × (before.result ≡ 0) × (before.pool ≡ s.pool_index))

abbrev session_of : Run → PoolSession
session_of s = record {
  pool = s.pool_index;
  donated = s.donating;
  phase = s.phase_seconds;
  result = s.last_rc;
}

-- What a turn leaves, where it goes on.
abbrev Scheduling : Settings → Bool → Run → Next → Type 0
Scheduling config seen s (leave last) = Unit
Scheduling config seen s (again slept later) =
    Scheduled config (session_of s) (seen || s.donating) later

seen_or_now : (seen now : Bool) → now ≡ true → (seen || now) ≡ true
seen_or_now true now h = refl
seen_or_now false now h = h

seen_before : (seen now : Bool) → now ≡ false → (seen || now) ≡ seen
seen_before true now h = refl
seen_before false now h = h

swap_phase-Scheduled :
    (config : Settings) (seen : Bool) (s : Run)
    → donation_enabled config ≡ true
    → s.last_rc ≡ 0
    → Scheduled config (session_of s) (seen || s.donating) (swap_phase config s)
unfolding swap_phase donation_phase_seconds
swap_phase-Scheduled config seen s on well = elim (Bool-cases s.donating) [
  | inl back ↦ record {
    allowed = inr on;
    timed = rw (seen_or_now seen s.donating back, back) refl;
    behind = inl (rw back refl);
  }
  | inr user ↦ record { allowed = inr on; timed = rw user refl; behind = inr (user, well, refl) }
]

-- A run of the user's that a failure or a disabled donation leaves.
user-Scheduled :
    (config : Settings) (before : PoolSession) (seen : Bool) (s : Run)
    → s.donating ≡ false
    → s.phase_seconds ≡ phase_of config seen false
    → Scheduled config before seen s
user-Scheduled config before seen s user timed = record {
  allowed = inl user;
  timed = timed ∙ ap (phase_of config seen) (sym user);
  behind = inl user;
}

fail_over_user :
    (config : Settings) (s : Run)
    → s.donating ≡ false
    → ((fail_over config s).donating ≡ false)
      × ((fail_over config s).phase_seconds ≡ s.phase_seconds)
unfolding fail_over
fail_over_user config s user = elim (Bool-cases (ltb 1 config.pool_count)) [
  | inl several ↦ rw (user, several, fail_over) (refl, refl)
  | inr one ↦ rw (user, one, fail_over) (refl, refl)
]

fail_over_back :
    (config : Settings) (s : Run)
    → s.donating ≡ true
    → s.last_rc ≢ 0
    → ((fail_over config s).donating ≡ false)
      × ((fail_over config s).phase_seconds ≡ phase_of config true false)
unfolding fail_over donation_phase_seconds
fail_over_back config s back failed =
    let not_well : (s.last_rc == 0) ≡ false = ground arith in
    rw (back, not_well, fail_over) (refl, refl)

-- Where no phase ends, the user is next.
fail_over_next :
    (config : Settings) (seen : Bool) (s : Run)
    → (donation_enabled config && (s.last_rc == 0)) ≡ false
    → (s.donating ≡ false) ⊎ (donation_enabled config ≡ true)
    → s.phase_seconds ≡ phase_of config seen s.donating
    → ((fail_over config s).donating ≡ false)
      × ((fail_over config s).phase_seconds ≡ phase_of config (seen || s.donating) false)
fail_over_next config seen s no_end allowed timed = elim (Bool-cases s.donating) [
  | inr user ↦
      let kept = fail_over_user config s user in
      (
        kept.0,
        kept.1
            ∙ timed
            ∙ ap (phase_of config seen) user
            ∙ ap (λ b. phase_of config b false) (sym (seen_before seen s.donating user)),
      )
  | inl back ↦ elim allowed [
    | inl user ↦ absurd (true-ne-false (sym back ∙ user))
    | inr on ↦
        let failed : s.last_rc ≢ 0 = ground (arith, no_end, on) in
        let home = fail_over_back config s back failed in
        (
          home.0,
          home.1 ∙ ap (λ b. phase_of config b false) (sym (seen_or_now seen s.donating back)),
        )
  ]
]
  where
    true-ne-false : true ≢ false
    true-ne-false e = cc

retry-Scheduled :
    (config : Settings) (seen : Bool) (s : Run) (remaining : Option ℕ) (next : Run)
    → next.donating ≡ false
    → next.phase_seconds ≡ phase_of config (seen || s.donating) false
    → Scheduling config seen s (retry config remaining next)
retry-Scheduled config seen s remaining next user timed = elim (retry_cases config remaining next) [
  | inl left ↦ subst (Scheduling config seen s) (sym left) tt
  | inr slept ↦ subst (Scheduling config seen s) (sym slept.1) (
      user-Scheduled config (session_of s) (seen || s.donating)
        (record next { attempt = (next.attempt + 1) % 2 ^ 64 }) user timed)
]

-- A turn that goes on leaves a scheduled run.
after_session-Scheduled :
    (config : Settings) (seen : Bool) (t : Turn) (s : Run)
    → (s.donating ≡ false) ⊎ (donation_enabled config ≡ true)
    → s.phase_seconds ≡ phase_of config seen s.donating
    → Scheduling config seen s (after_session config t s)
unfolding after_session
after_session-Scheduled config seen t s allowed timed = elim (Bool-cases t.over_after) [
  | inl over ↦ rw (over, after_session) tt
  | inr goes ↦ elim (Bool-cases (donation_enabled config && (s.last_rc == 0))) [
    | inl ended ↦
        let on : donation_enabled config ≡ true = ground (arith, ended) in
        let well : s.last_rc ≡ 0 = ground (arith, ended) in
        rw (goes, ended, after_session) (swap_phase-Scheduled config seen s on well)
    | inr no_end ↦
        let next = fail_over_next config seen s no_end allowed timed in
        rw (goes, no_end, after_session)
          (retry-Scheduled config seen s t.remaining (fail_over config s) next.0 next.1)
  ]
]

-- What is claimed of the sessions behind `before`.
abbrev Fair : Settings → PoolSession → Bool → List PoolSession → Type 0
Fair config before seen l = Earned before l × Timed config seen l

follow-Fair :
    (config : Settings) (before : PoolSession) (seen : Bool) (s : Run) (next : Next)
    (rest : Run → List PoolSession × Option ℕ)
    → (s.donating ≡ false)
      ⊎ ((before.donated ≡ false) × (before.result ≡ 0) × (before.pool ≡ s.pool_index))
    → s.phase_seconds ≡ phase_of config seen s.donating
    → Scheduling config seen s next
    → ((later : Run)
        → Scheduled config (session_of s) (seen || s.donating) later
        → Fair config (session_of s) (seen || s.donating) (rest later).0)
    → Fair config before seen (follow (session_of s) next rest).0
unfolding follow
follow-Fair config before seen s (leave last) rest behind timed h go = ((behind, tt), (timed, tt))
follow-Fair config before seen s (again slept later) rest behind timed h go =
    let others = go later h in ((behind, others.0), (timed, others.1))

run-Fair :
    (config : Settings) (ts : List Turn) (before : PoolSession) (seen : Bool) (s : Run)
    → Scheduled config before seen s
    → Fair config before seen (run config ts s).0
run-Fair config [] before seen s h =
    subst (λ r. Fair config before seen r.0) (sym (run_empty config s)) (tt, tt)
run-Fair config (t ∷ ts) before seen s h = elim (Bool-cases t.over_before) [
  | inl over ↦ subst (λ r. Fair config before seen r.0) (sym (run_over config t ts s over)) (tt, tt)
  | inr goes ↦
      let begun : Run = record s { last_rc = t.rc } in
      let next = after_session config t begun in
      let step = run_goes config t ts s goes in
      subst (λ r. Fair config before seen r.0) (sym step)
        (follow-Fair config before seen begun next (run config ts) h.behind h.timed
          (after_session-Scheduled config seen t begun h.allowed h.timed)
          (λ (later : Run) k. run-Fair config ts (session_of begun) (seen || s.donating) later k))
]

-- From the start of main, whatever the sessions and the clock do: each donated session stands directly
-- behind a session of the user that ended with 0, on the same pool, where `before` is any session that
-- is put in front of the first; a donated session may last `donate_level` minutes; a session of the
-- user may last the rest of the hundred minutes once a donated one has come before it, and until then
-- the phase that main begins with, which is not limited where the donation is off.
pub run-donation :
    (config : Settings) (ts : List Turn) (before : PoolSession)
    → Earned before (run config ts (run_init config)).0
      × Timed config false (run config ts (run_init config)).0
unfolding run_init donation_enabled
run-donation config ts before =
    run-Fair config ts before false (run_init config)
      (user-Scheduled config before false (run_init config) refl refl)
