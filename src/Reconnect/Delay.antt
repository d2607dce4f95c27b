-- ===== src/Reconnect/Delay.antt =====
-- The delay before a session is opened again.
use btcrig.Base.{
  ℕ, zero, suc, ◌-◌, ◌*◌, ◌/◌, ◌^◌, ◌≤◌, min, max, ◌≡◌, sym, ap, ◌∙◌, inl, inr, arith, ltb, leb,
  if◌then◌else◌, Bool-cases,
}
use btcrig.Reconnect.{max_reconnect_delay, back_off, retry_delay_seconds}

double_power : (d n : ℕ) → d * 2 ^ suc n ≡ d * 2 * 2 ^ n
double_power d n = grind arith

power_positive : (n : ℕ) → 1 ≤ 2 ^ n
power_positive zero = omega arith
power_positive (suc n) = grind (arith, power_positive n)

power_keeps : (d n : ℕ) → d ≤ d * 2 ^ n
power_keeps d n = grind (arith, power_positive n)

back_off_lem :
    (turns delay : ℕ)
    → delay ≤ max_reconnect_delay
    → back_off turns delay ≡ min max_reconnect_delay (delay * 2 ^ turns)
unfolding back_off
back_off_lem zero delay h = omega arith
back_off_lem (suc turns) delay h =
    let power = double_power delay turns in
    elim (Bool-cases (ltb delay max_reconnect_delay)) [
      | inr full ↦
          let keeps = power_keeps delay (suc turns) in
          rw (full, back_off) (ground (arith, full, keeps))
      | inl below ↦ elim (Bool-cases (ltb (max_reconnect_delay / 2) delay)) [
        | inl high ↦
            let at_most = back_off_lem turns max_reconnect_delay (omega arith) in
            let keeps = power_keeps max_reconnect_delay turns in
            let grown = power_keeps (delay * 2) turns in
            rw (below, high, back_off) (at_most ∙ ground (arith, high, keeps, grown, power))
        | inr low ↦
            let doubled = back_off_lem turns (delay * 2) (ground (arith, low)) in
            rw (below, low, back_off) (doubled ∙ ap (min max_reconnect_delay) (sym power))
      ]
    ]

-- The delay doubles with each attempt, from the configured one (at least a second) to at most a
-- minute: the loop of the code computes the smaller of the minute and the power of two.
pub retry_delay_seconds_lem :
    (base_delay attempt : ℕ)
    → retry_delay_seconds base_delay attempt
      ≡ min max_reconnect_delay (max 1 base_delay * 2 ^ (attempt - 1))
unfolding retry_delay_seconds
retry_delay_seconds_lem base_delay attempt =
    let first = if leb base_delay 0 then 1 else base_delay in
    let same : first ≡ max 1 base_delay = ground arith in
    elim (Bool-cases (ltb max_reconnect_delay first)) [
      | inl long ↦
          let keeps = power_keeps (max 1 base_delay) (attempt - 1) in
          rw (long, retry_delay_seconds) (ground (arith, long, same, keeps))
      | inr short ↦
          let slowed = back_off_lem (attempt - 1) first (ground (arith, short)) in
          let meant = ap (λ d. min max_reconnect_delay (d * 2 ^ (attempt - 1))) same in
          rw (short, retry_delay_seconds) (ground (arith, slowed ∙ meant))
    ]
