-- ===== src/Relay/Delivers.antt =====
-- While neither side breaks, the relay delivers what it has read.
use mathlib.Core.List.{append-nil}
use btcrig.Base.{
  ℕ, suc, ◌+◌, ◌-◌, ◌≤◌, ◌<◌, min, ◌≡◌, refl, sym, ap, ◌∙◌, subst, ◌≢◌, inl, inr, Bool, true, false,
  not, ◌&&◌, ◌||◌, List, [], ◌∷◌, ◌++◌, arith, leb, Bool-cases, length, take, drop, All,
}
use btcrig.Relay.{
  Buffer, Read, got, ended, read_later, read_broken, Write, wrote, write_later, write_broken,
  Direction, Relay, Round, buffer_empty, buffer_reset, pending, Move, moved, still, broken, advance,
  write_some, write_out, read_some, read_in, on_c2u, on_u2c, next, send_up, send_down, take_up,
  take_down, wait, round, proxy_loop,
}
use btcrig.Relay.Faithful.{Faithful, left, write_out-Faithful}

-- A round in which the upstream takes bytes, the client sends none, and nothing breaks.
pub record Flowing (w : Round) : Type 0 where
  pub size : ℕ
  pub sends : w.to_upstream ≡ wrote size
  pub quiet : w.from_client ≡ read_later
  pub answers : w.to_client ≢ write_broken
  pub upstream_open : w.from_upstream ≢ ended
  pub upstream_whole : w.from_upstream ≢ read_broken
  pub wait_ends : w.wait_fails ≡ false

-- A call after which the loop goes on.
abbrev Going : Move → Type 0
Going (moved d) = Unit
Going (still d) = Unit
Going (broken d) = ⊥

write_out-Going : (w : Write) (d : Direction) → w ≢ write_broken → Going (write_out w d)
unfolding write_out write_some
write_out-Going (wrote n) d h = elim (Bool-cases (buffer_empty d.buffer)) [
  | inl e ↦ rw (e, write_out) tt
  | inr e ↦ rw (e, write_out) tt
]
write_out-Going write_later d h = elim (Bool-cases (buffer_empty d.buffer)) [
  | inl e ↦ rw (e, write_out) tt
  | inr e ↦ rw (e, write_out) tt
]
write_out-Going write_broken d h = absurd (h refl)

read_in-Going : (r : Read) (d : Direction) → r ≢ ended → r ≢ read_broken → Going (read_in r d)
unfolding read_in read_some
read_in-Going r d h k = elim (Bool-cases (d.is_open && buffer_empty d.buffer)) [
  | inl e ↦ rw (e, read_in) (read_some-Going r d h k)
  | inr e ↦ rw (e, read_in) tt
]
  where
    read_some-Going :
        (x : Read) (c : Direction) → x ≢ ended → x ≢ read_broken → Going (read_some x c)
    read_some-Going (got x xs) c h k = tt
    read_some-Going ended c h k = absurd (h refl)
    read_some-Going read_later c h k = tt
    read_some-Going read_broken c h k = absurd (k refl)

read_in_quiet : (d : Direction) → read_in read_later d ≡ still d
unfolding read_in read_some
read_in_quiet d = elim (Bool-cases (d.is_open && buffer_empty d.buffer)) [
  | inl e ↦ rw (e, read_in) refl
  | inr e ↦ rw (e, read_in) refl
]

on_c2u-Going :
    (m : Move) (s : Relay) → Going m → ((on_c2u m s).0 ≡ true) × ((on_c2u m s).1.c2u ≡ left m)
unfolding on_c2u left
on_c2u-Going (moved d) s g = (refl, refl)
on_c2u-Going (still d) s g = (refl, refl)
on_c2u-Going (broken d) s g = absurd g

on_u2c-Going :
    (m : Move) (s : Relay) → Going m → ((on_u2c m s).0 ≡ true) × ((on_u2c m s).1.c2u ≡ s.c2u)
unfolding on_u2c
on_u2c-Going (moved d) s g = (refl, refl)
on_u2c-Going (still d) s g = (refl, refl)
on_u2c-Going (broken d) s g = absurd g

next-Going : (call : Relay → Bool × Relay) (p : Bool × Relay) → p.0 ≡ true → next call p ≡ call p.1
unfolding next
next-Going call (true, s) h = refl
next-Going call (false, s) h = cc

round-Flowing :
    (w : Round) (s : Relay)
    → Flowing w
    → ((round w s).0 ≡ true) × ((round w s).1.c2u ≡ left (write_out w.to_upstream s.c2u))
unfolding round wait send_up send_down take_up take_down left
round-Flowing w s f =
    let begun : Relay = record s { progress = false } in
    let out = write_out w.to_upstream s.c2u in
    let going = write_out-Going w.to_upstream s.c2u (λ e. wrote-ne (sym f.sends ∙ e)) in
    let first = on_c2u-Going out begun going in
    let t1 = (send_up w begun).1 in
    let second =
      on_u2c-Going (write_out w.to_client t1.u2c) t1
        (write_out-Going w.to_client t1.u2c f.answers) in
    let t2 = (send_down w t1).1 in
    let reads : read_in w.from_client t2.c2u ≡ still t2.c2u =
      ap (λ r. read_in r t2.c2u) f.quiet ∙ read_in_quiet t2.c2u in
    let third = on_c2u-Going (still t2.c2u) t2 tt in
    let third_true = ap (λ m. (on_c2u m t2).0) reads ∙ third.0 in
    let third_same = ap (λ m. (on_c2u m t2).1.c2u) reads ∙ third.1 in
    let t3 = (take_up w t2).1 in
    let fourth =
      on_u2c-Going (read_in w.from_upstream t3.u2c) t3
        (read_in-Going w.from_upstream t3.u2c f.upstream_open f.upstream_whole) in
    let calls =
      ap (λ p. next (wait w.wait_fails) (next (take_down w) (next (take_up w) p)))
        (next-Going (send_down w) (send_up w begun) first.0)
      ∙ ap (λ p. next (wait w.wait_fails) (next (take_down w) p))
          (next-Going (take_up w) (send_down w t1) second.0)
      ∙ ap (next (wait w.wait_fails)) (next-Going (take_down w) (take_up w t2) third_true)
      ∙ next-Going (wait w.wait_fails) (take_down w t3) fourth.0 in
    (
      ap (λ p. p.0) calls ∙ wait_end _ w.wait_fails f.wait_ends,
      ap (λ p. p.1.c2u) calls ∙ fourth.1 ∙ third_same ∙ second.1 ∙ first.1,
    )
  where
    wrote-ne : {n : ℕ} → wrote n ≢ write_broken
    wrote-ne e = cc

    wait_end : (c b : Bool) → b ≡ false → (c || not b) ≡ true
    wait_end true b e = refl
    wait_end false b e = rw e refl

-- How many bytes wait.
abbrev pub waiting : Direction → ℕ
waiting d = d.buffer.len - d.buffer.off

advance-waiting :
    (b : Buffer) (count : ℕ)
    → 0 < count
    → (advance b count).len - (advance b count).off ≤ b.len - b.off - 1
unfolding advance buffer_empty buffer_reset
advance-waiting b count h = elim (Bool-cases (leb b.len (b.off + count))) [
  | inl all ↦ rw (all, advance) (omega arith)
  | inr some_left ↦ rw (some_left, advance) (omega arith)
]

write_out-waiting :
    (n : ℕ) (d : Direction)
    → (waiting (left (write_out (wrote n) d)) ≤ waiting d - 1)
      × ((left (write_out (wrote n) d)).taken ≡ d.taken)
unfolding write_out write_some left buffer_empty
write_out-waiting n d = elim (Bool-cases (buffer_empty d.buffer)) [
  | inl empty ↦ rw (empty, write_out) (ground (arith, empty), refl)
  | inr some_left ↦
      rw (some_left, write_out)
        (advance-waiting d.buffer (min (suc n) (waiting d)) (ground (arith, some_left)), refl)
]

-- While the upstream takes bytes, the client sends none and neither connection breaks, the loop runs
-- on, and after as many rounds as bytes wait for the upstream it has written to it all bytes that
-- the client has sent.
pub proxy_loop-Delivers :
    (ws : List Round) (s : Relay)
    → All Flowing ws
    → Faithful s.c2u
    → waiting s.c2u ≤ length ws
    → ((proxy_loop ws s).0 ≡ true) × ((proxy_loop ws s).1.c2u.given ≡ s.c2u.taken)
unfolding proxy_loop pending
proxy_loop-Delivers [] s flows kept enough =
    let none_left : s.c2u.buffer.len - s.c2u.buffer.off ≡ 0 = omega arith in
    let nothing = ap (λ n. take n (drop s.c2u.buffer.off s.c2u.buffer.bytes)) none_left in
    (refl, sym (append-nil s.c2u.given) ∙ ap (λ l. s.c2u.given ++ l) (sym nothing) ∙ kept.in_order)
proxy_loop-Delivers (w ∷ ws) s flows kept enough =
    let flow = flows.0 in
    let step = round-Flowing w s flow in
    let written = step.1 ∙ ap (λ x. left (write_out x s.c2u)) flow.sends in
    let fewer = write_out-waiting flow.size s.c2u in
    let after = (round w s).1 in
    let waits = ap waiting written in
    let kept_after = subst Faithful (sym step.1) (write_out-Faithful w.to_upstream s.c2u kept) in
    let rest = proxy_loop-Delivers ws after flows.1 kept_after (omega arith) in
    let same = next-Going (proxy_loop ws) (round w s) step.0 in
    (
      ap (λ p. p.0) same ∙ rest.0,
      ap (λ p. p.1.c2u.given) same ∙ rest.1 ∙ ap (λ d. d.taken) written ∙ fewer.1,
    )
