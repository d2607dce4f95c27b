-- ===== src/Reconnect/Ends.antt =====
-- Sessions that all fail, with a limit of retries.
use native.Mathlib.Nat.{mod-lt}
use btcrig.Base.{
  ℕ, zero, suc, ◌+◌, ◌-◌, ◌%◌, ◌^◌, ◌≤◌, ◌<◌, ◌≡◌, refl, sym, ap, ap₂, ◌∙◌, subst, ◌≢◌, inl, inr,
  true, false, none, some, List, [], ◌∷◌, arith, leb, if◌then◌else◌, leb→le, Bool-cases, length,
  All,
}
use btcrig.Reconnect.{
  Settings, Run, Turn, PoolSession, retry_delay_seconds, wait_seconds, fail_over, exhausted, retry,
  leave, again, follow, run,
}
use btcrig.Reconnect.Retries.{fail_over-rotates, after_session_failed, run_goes}

-- A turn whose session fails while the runtime is not limited.
pub record Steady (t : Turn) : Type 0 where
  pub fails : t.rc ≢ 0
  pub goes_on : t.over_before ≡ false
  pub still_on : t.over_after ≡ false
  pub unlimited_time : t.remaining ≡ none

retry_last :
    (config : Settings) (s : Run) (limit : ℕ)
    → config.retries ≡ some limit
    → limit ≤ s.attempt
    → retry config none s ≡ leave s
unfolding retry exhausted
retry_last config s limit capped last =
    let full : exhausted config.retries s.attempt ≡ true =
      ap (λ r. exhausted r s.attempt) capped ∙ ground (arith, last) in
    rw (full, retry) refl

retry_again :
    (config : Settings) (s : Run) (limit : ℕ)
    → config.retries ≡ some limit
    → s.attempt < limit
    → (slept : ℕ) × (retry config none s
        ≡ again slept (record s { attempt = (s.attempt + 1) % 2 ^ 64 }))
unfolding retry exhausted wait_seconds
retry_again config s limit capped more =
    let room : exhausted config.retries s.attempt ≡ false =
      ap (λ r. exhausted r s.attempt) capped ∙ ground (arith, more) in
    (retry_delay_seconds config.reconnect_delay (s.attempt + 1), (rw (room, retry) refl))

-- A steady turn is the next session and its retry.
run-Steady :
    (config : Settings) (t : Turn) (ts : List Turn) (s : Run)
    → s.donating ≡ false
    → s.pool_index < config.pool_count
    → Steady t
    → run config (t ∷ ts) s
      ≡ follow
          (record {
            pool = s.pool_index;
            donated = s.donating;
            phase = s.phase_seconds;
            result = t.rc;
          })
          (retry config none
            (record s { last_rc = t.rc; pool_index = (s.pool_index + 1) % config.pool_count }))
          (run config ts)
run-Steady config t ts s user inside steady =
    let begun : Run = record s { last_rc = t.rc } in
    let first : PoolSession = record {
      pool = s.pool_index;
      donated = s.donating;
      phase = s.phase_seconds;
      result = t.rc;
    } in
    run_goes config t ts s steady.goes_on
    ∙ ap (λ n. follow first n (run config ts))
        (after_session_failed config t begun steady.fails
          ∙ ap (λ b. if b then leave begun else retry config t.remaining (fail_over config begun))
              steady.still_on
          ∙ ap₂ (retry config) steady.unlimited_time (fail_over-rotates config begun user inside))

-- What the session of the turn `i` returns.
abbrev pub rc_at : List Turn → ℕ → ℕ
rc_at [] i = 0
rc_at (t ∷ ts) zero = t.rc
rc_at (t ∷ ts) (suc i) = rc_at ts i

-- With a limit of retries below 2 ^ 31 that is not passed yet, on a pool of the list and outside a
-- donation: where the sessions of all turns fail while the runtime is not limited, and the turns are
-- more than the retries that are left, the loop opens one session and one for each of these retries,
-- and main returns what the last of them returned, which is not 0.
pub run-ends :
    (config : Settings) (ts : List Turn) (s : Run) (limit : ℕ)
    → config.retries ≡ some limit
    → limit < 2 ^ 31
    → s.attempt ≤ limit
    → s.donating ≡ false
    → s.pool_index < config.pool_count
    → All Steady ts
    → limit - s.attempt < length ts
    → (length (run config ts s).0 ≡ suc (limit - s.attempt))
      × ((run config ts s).1 ≡ some (rc_at ts (limit - s.attempt)))
      × (rc_at ts (limit - s.attempt) ≢ 0)
unfolding follow
run-ends config [] s limit capped small below user inside steady enough = absurd (omega arith)
run-ends config (t ∷ ts) s limit capped small below user inside steady enough =
    let first : PoolSession = record {
      pool = s.pool_index;
      donated = s.donating;
      phase = s.phase_seconds;
      result = t.rc;
    } in
    let after : Run = record s {
      last_rc = t.rc;
      pool_index = (s.pool_index + 1) % config.pool_count;
    } in
    let step = run-Steady config t ts s user inside steady.0 in
    elim (Bool-cases (leb limit s.attempt)) [
      | inl last ↦
          let ended = retry_last config after limit capped (ground (arith, last)) in
          let whole = step ∙ ap (λ n. follow first n (run config ts)) ended in
          let one = ap (λ r. length r.0) whole in
          let none_left : limit - s.attempt ≡ 0 = omega (arith, leb→le limit s.attempt last) in
          let its_rc = ap (rc_at (t ∷ ts)) none_left in
          (
            omega arith,
            ap (λ r. r.1) whole ∙ ap some (sym its_rc),
            subst (λ rc. rc ≢ 0) (sym its_rc) steady.0.fails,
          )
      | inr more ↦
          let room : s.attempt < limit = ground (arith, more) in
          let again_then = retry_again config after limit capped room in
          let later : Run = record after { attempt = (s.attempt + 1) % 2 ^ 64 } in
          let whole = step ∙ ap (λ n. follow first n (run config ts)) again_then.1 in
          let longer = ap (λ r. length r.0) whole in
          let counted : later.attempt ≡ s.attempt + 1 = omega arith in
          let rest =
            run-ends config ts later limit capped small (omega arith) user
              (mod-lt (s.pool_index + 1) (omega arith)) steady.1 (omega arith) in
          let one_less : limit - s.attempt ≡ suc (limit - later.attempt) = omega arith in
          let its_rc = ap (rc_at (t ∷ ts)) one_less in
          (
            omega (arith, rest.0),
            ap (λ r. r.1) whole ∙ rest.1 ∙ ap some (sym its_rc),
            subst (λ rc. rc ≢ 0) (sym its_rc) rest.2,
          )
    ]
