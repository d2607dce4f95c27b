-- ===== src/Reconnect.antt =====
-- The loop of main in stratum_main.c that opens one session after another, with retry_delay_seconds
-- and the phases of donation.c. A session is stratum_run_client, which is given by its result. The
-- clock is read as a count of nanoseconds.
pub mod Delay
pub mod Retries
pub mod Ends
pub mod Donation
use btcrig.Base.{
  ℕ, zero, suc, ◌+◌, ◌-◌, ◌*◌, ◌/◌, ◌%◌, ◌^◌, ◌≤◌, ◌<◌, min, max, bit_and, bit_or, bit_xor, ◌≡◌,
  refl, sym, ap, ap₂, ◌∙◌, subst, ◌≢◌, ◌↔◌, ◌⊎◌, inl, inr, Bool, true, false, not, ◌&&◌, ◌||◌,
  Option, none, some, List, [], ◌∷◌, ◌++◌, map, arith, ltb, leb, ◌==◌, if◌then◌else◌, ltb→lt,
  lt→ltb, leb→le, ==_iff, tests, Bool-cases, Option-cases, length, get_or, set, take, drop,
  replicate, All, length-append, length-set, length-take, length-drop, length-replicate,
  take-append-drop, take_append, drop_append, get_or-set_self, get_or-set_ne, get_or-take,
  get_or_ext, All-append, All-take, All-drop, All-get_or, length-map, ◌>>=◌, take_whole,
  take-append, range_from, range_from-suc,
}

-- MAX_RECONNECT_DELAY
abbrev pub max_reconnect_delay : ℕ
max_reconnect_delay = 60

-- DONATION_CYCLE_MINUTES
abbrev pub donation_cycle_minutes : ℕ
donation_cycle_minutes = 100

-- What main has read from the configuration. `retries` is none where it is negative.
pub record Settings : Type 0 where
  pub pool_count : ℕ
  pub retries : Option ℕ
  pub reconnect_delay : ℕ
  pub mining_enabled : Bool
  pub donate_level : ℕ

-- phase_seconds: `unlimited` is 0.0, `initial` is what donation_initial_user_seconds draws
pub data Phase : Type 0 where
  unlimited : Phase
  initial : Phase
  seconds : ℕ → Phase

-- The variables of the loop
pub record Run : Type 0 where
  pub last_rc : ℕ
  pub pool_index : ℕ
  pub donating : Bool
  pub phase_seconds : Phase
  pub attempt : ℕ

-- What one turn meets: whether the runtime is over before and after the session, the session's
-- result, and the nanoseconds that are left where the runtime is limited (0 where none are).
pub record Turn : Type 0 where
  pub over_before : Bool
  pub rc : ℕ
  pub over_after : Bool
  pub remaining : Option ℕ

-- A session: the pool, whether it is the donation's, how long it may last, and its result.
pub record PoolSession : Type 0 where
  pub pool : ℕ
  pub donated : Bool
  pub phase : Phase
  pub result : ℕ

-- The loop of retry_delay_seconds, `turns` from its bound.
unfoldable pub back_off : ℕ → ℕ → ℕ
back_off zero delay = delay
back_off (suc turns) delay =
    let next = if ltb (max_reconnect_delay / 2) delay then max_reconnect_delay else delay * 2 in
    let rest = back_off turns next in if ltb delay max_reconnect_delay then rest else delay

unfoldable pub retry_delay_seconds : ℕ → ℕ → ℕ
unfolding back_off
retry_delay_seconds base_delay attempt =
    let delay = if leb base_delay 0 then 1 else base_delay in
    let slowed = back_off (attempt - 1) delay in
    if ltb max_reconnect_delay delay
    then max_reconnect_delay
    else if ltb max_reconnect_delay slowed
    then max_reconnect_delay
    else slowed

-- donation_phase_seconds
unfoldable pub donation_phase_seconds : ℕ → Bool → ℕ
donation_phase_seconds level donating =
    (if donating then level else donation_cycle_minutes - level) * 60

unfoldable pub donation_enabled : Settings → Bool
donation_enabled config = config.mining_enabled && ltb 0 config.donate_level

unfoldable pub run_init : Settings → Run
unfolding donation_enabled
run_init config = record {
  last_rc = 0;
  pool_index = 0;
  donating = false;
  phase_seconds = if donation_enabled config then initial else unlimited;
  attempt = 0;
}

-- The delay before the next session; none is a runtime that is over.
unfoldable pub wait_seconds : Option ℕ → ℕ → Option ℕ
wait_seconds none delay = some delay
wait_seconds (some left) delay =
    let at_least = if ltb left (10 ^ 9) then 1 else delay in
    let whole = left / 10 ^ 9 in
    if left == 0
    then none
    else if ltb left (at_least * 10 ^ 9)
    then some (if leb whole 0 then 1 else whole)
    else some at_least

-- What follows a session that ends a phase.
unfoldable pub swap_phase : Settings → Run → Run
unfolding donation_phase_seconds
swap_phase config s = record s {
  donating = not s.donating;
  phase_seconds = seconds (donation_phase_seconds config.donate_level (not s.donating));
  attempt = 0;
}

-- What follows a session that failed: the end of a donation, or the next pool.
unfoldable pub fail_over : Settings → Run → Run
unfolding donation_phase_seconds
fail_over config s =
    if s.donating && not (s.last_rc == 0)
    then record s {
      donating = false;
      phase_seconds = seconds (donation_phase_seconds config.donate_level false);
    }
    else if ltb 1 config.pool_count
    then record s { pool_index = (s.pool_index + 1) % config.pool_count }
    else s

-- Whether the limit of retries is reached.
unfoldable pub exhausted : Option ℕ → ℕ → Bool
exhausted none attempt = false
exhausted (some retries) attempt = leb retries attempt

-- What a turn comes to: the loop is left, or goes on after a sleep.
pub data Next : Type 0 where
  leave : Run → Next
  again : ℕ → Run → Next

-- The limit of retries, and the sleep before the next session.
unfoldable pub retry : Settings → Option ℕ → Run → Next
unfolding exhausted wait_seconds retry_delay_seconds
retry config remaining s =
    let delay =
      wait_seconds remaining (retry_delay_seconds config.reconnect_delay (s.attempt + 1)) in
    if exhausted config.retries s.attempt then leave s else elim delay [
      | none ↦ leave s
      | some slept ↦ again slept (record s { attempt = (s.attempt + 1) % 2 ^ 64 })
    ]

-- From the end of the session to the next turn, and the seconds slept.
unfoldable pub after_session : Settings → Turn → Run → Next
unfolding donation_enabled swap_phase fail_over retry
after_session config t s =
    if t.over_after
    then leave s
    else if donation_enabled config && s.last_rc == 0
    then again 0 (swap_phase config s)
    else retry config t.remaining (fail_over config s)

-- The session that is over, and those of the turns that follow it.
unfoldable pub follow :
    PoolSession → Next → (Run → List PoolSession × Option ℕ) → List PoolSession × Option ℕ
follow session (leave last) rest = (session ∷ [], some last.last_rc)
follow session (again slept later) rest = (session ∷ (rest later).0, (rest later).1)

-- The sessions of the loop in their order, and the result of main where the loop is left.
pub run : Settings → List Turn → Run → List PoolSession × Option ℕ
unfolding after_session follow
run config [] s = ([], none)
run config (t ∷ ts) s =
    let session : PoolSession = record {
      pool = s.pool_index;
      donated = s.donating;
      phase = s.phase_seconds;
      result = t.rc;
    } in
    let next = after_session config t (record s { last_rc = t.rc }) in
    if t.over_before then ([], some s.last_rc) else follow session next (run config ts)
