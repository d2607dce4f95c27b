-- ===== src/Stratum/Client/Sends.antt =====
-- Each step of a turn keeps the requests in order.
use btcrig.Base.{
  ℕ, zero, suc, ◌+◌, ◌≡◌, refl, ap, inl, inr, Bool, true, false, not, ◌&&◌, List, [], ◌∷◌, ◌++◌,
  arith, ltb, ◌==◌, Bool-cases, Option-cases, get_or,
}
use btcrig.Sha256d.OpenSsl.{OpenSsl}
use btcrig.Sha256d.Midstate.{Midstate}
use btcrig.Job.{Doubles}
use btcrig.Stratum.Json.{Json}
use btcrig.Stratum.Lines.{Outcome, got_line, too_long, timed_out, closed, failed}
use btcrig.Stratum.Session.{flush_share}
use btcrig.Stratum.Client.{
  authorize, suggest_difficulty, submit, ClientConfig, Client, ClientTurn, Step, returns, goes_on,
  waits, Pop, mine, next_share, flush_next, flush_loop, waiting_shares, flush_shares, flush_mining,
  send_authorize, send_suggest, start_period,
}
use btcrig.Stratum.Client.Loop.{and_then, on_outcome}
use btcrig.Stratum.Client.Requests.{
  InOrder, Ordered, flag, Ordered-InOrder, Ordered-submit, Ordered-append,
}

pub and_not : (a b : Bool) → (a && not b) ≡ true → b ≡ false
and_not true false h = refl
and_not true true h = cc
and_not false b h = cc

module _ (lib : OpenSsl) (F : Doubles) (J : Json F.Double) where
  abbrev pub OrderedClient : Client lib F.Double → Type 0
  OrderedClient c = Ordered c.authorize_sent c.suggest_sent c.next_rpc_id c.sent

  -- A client that the loop goes on with, and one that it has left.
  abbrev pub Sound : Step lib F.Double → Type 0
  Sound (returns rc c) = InOrder c.sent
  Sound (goes_on c) = OrderedClient c
  Sound (waits c) = OrderedClient c

  abbrev pub Flushed : Bool → Client lib F.Double → Type 0
  Flushed true c = OrderedClient c
  Flushed false c = InOrder c.sent

  pub InOrder-client : (c : Client lib F.Double) → OrderedClient c → InOrder c.sent
  InOrder-client c h = Ordered-InOrder c.authorize_sent c.suggest_sent c.next_rpc_id c.sent h

  pub and_then-Sound :
      (step : Step lib F.Double) (next : Client lib F.Double → Step lib F.Double)
      → Sound step
      → ((c : Client lib F.Double) → OrderedClient c → Sound (next c))
      → Sound (and_then lib F J step next)
  unfolding and_then
  and_then-Sound (returns rc c) next h go = h
  and_then-Sound (goes_on c) next h go = go c h
  and_then-Sound (waits c) next h go = h

  flush_next-Flushed :
      (user : List ℕ) (sends : Bool) (now : F.Double)
      (rest : Client lib F.Double → Bool × Client lib F.Double) (c : Client lib F.Double)
      → ((d : Client lib F.Double) → OrderedClient d → Flushed (rest d).0 (rest d).1)
      → OrderedClient c
      → Flushed
          (flush_next lib F J user sends now rest c).0
          (flush_next lib F J user sends now rest c).1
  unfolding flush_next
  flush_next-Flushed user sends now rest c go h =
      elim (Option-cases (next_share lib F J c.session)) [
        | inl empty ↦ rw (empty, flush_next) h
        | inr found ↦ elim (Bool-cases sends) [
          | inr fails ↦ rw (found.1, fails, flush_next) (InOrder-client c h)
          | inl sent ↦
              rw (found.1, sent, flush_next)
                (go
                  (record c {
                    session = (flush_share lib F c.session c.next_rpc_id true now).1;
                    next_rpc_id = c.next_rpc_id + 1;
                    sent = c.sent ++ (submit c.next_rpc_id user found.0 ∷ []);
                  })
                  (Ordered-submit c.authorize_sent c.suggest_sent c.next_rpc_id c.sent user found.0
                    h))
        ]
      ]

  flush_loop-Flushed :
      (user : List ℕ) (works : ℕ → Bool) (time : ℕ → F.Double) (n : ℕ) (c : Client lib F.Double)
      → OrderedClient c
      → Flushed
          (flush_loop lib F J user works time n c).0
          (flush_loop lib F J user works time n c).1
  unfolding flush_loop
  flush_loop-Flushed user works time zero c h = h
  flush_loop-Flushed user works time (suc n) c h =
      flush_next-Flushed user (works n) (time n) (flush_loop lib F J user works time n) c
        (flush_loop-Flushed user works time n) h

  pub flush_mining-Flushed :
      (user : List ℕ) (pops : List (Pop (Midstate lib) F.Double)) (works : ℕ → Bool)
      (time : ℕ → F.Double) (c : Client lib F.Double)
      → OrderedClient c
      → Flushed
          (flush_mining lib F J user pops works time c).0
          (flush_mining lib F J user pops works time c).1
  unfolding flush_mining flush_shares
  flush_mining-Flushed user [] works time c h =
      flush_loop-Flushed user works time (waiting_shares lib F J c.session) c h
  flush_mining-Flushed user (p ∷ ps) works time c h =
      flush_next-Flushed user p.sends p.now (flush_mining lib F J user ps works time)
        (record c { session = mine lib F J p.mined c.session })
        (flush_mining-Flushed user ps works time) h

  pub send_authorize-Sound :
      (config : ClientConfig F.Double) (works : Bool) (c : Client lib F.Double)
      → OrderedClient c
      → Sound (send_authorize lib F J config works c)
  unfolding send_authorize
  send_authorize-Sound config works c h =
      elim (Bool-cases (c.session.subscribed && not c.authorize_sent)) [
        | inr not_now ↦ rw (not_now, send_authorize) h
        | inl now ↦ elim (Bool-cases works) [
          | inr fails ↦ rw (now, fails, send_authorize) (InOrder-client c h)
          | inl sent ↦
              let not_yet = ap flag (and_not c.session.subscribed c.authorize_sent now) in
              rw (now, sent, send_authorize)
                (Ordered-append c.authorize_sent c.suggest_sent true c.suggest_sent c.next_rpc_id
                  c.sent (authorize config.user config.password) refl refl (omega arith)
                  (omega arith) h)
        ]
      ]

  pub send_suggest-Sound :
      (config : ClientConfig F.Double) (works : Bool) (c : Client lib F.Double)
      → OrderedClient c
      → Sound (send_suggest lib F J config works c)
  unfolding send_suggest
  send_suggest-Sound config works c h =
      elim (Bool-cases
        (c.session.authorized && F.below (F.of_nat 0) config.suggested && not c.suggest_sent)) [
          | inr not_now ↦ rw (not_now, send_suggest) h
          | inl now ↦ elim (Bool-cases works) [
            | inr fails ↦ rw (now, fails, send_suggest) (InOrder-client c h)
            | inl sent ↦
                let not_yet = ap flag (
                  and_not (c.session.authorized && F.below (F.of_nat 0) config.suggested)
                    c.suggest_sent now) in
                rw (now, sent, send_suggest)
                  (Ordered-append c.authorize_sent c.suggest_sent c.authorize_sent true
                    c.next_rpc_id c.sent (suggest_difficulty config.suggested) refl refl
                    (omega arith) (omega arith) h)
          ]
        ]

  pub start_period-Sound :
      (config : ClientConfig F.Double) (c : Client lib F.Double)
      → OrderedClient c
      → Sound (start_period lib F J config c)
  unfolding start_period
  start_period-Sound config c h =
      elim (Bool-cases (
        not c.timed
        && F.below (F.of_nat 0) config.session_seconds
        && c.session.authorized
        && ltb 0 c.session.notify_count)) [
          | inl now ↦ rw (now, start_period) h
          | inr later ↦ rw (later, start_period) h
        ]

  pub on_outcome-Sound :
      (junk : List ℕ) (t : ClientTurn lib F.Double) (outcome : Outcome) (c : Client lib F.Double)
      → OrderedClient c
      → Sound (on_outcome lib F J junk t outcome c)
  unfolding on_outcome
  on_outcome-Sound junk t (got_line text) c h = elim (Bool-cases (get_or text 0 0 == 0)) [
    | inl nothing ↦ rw (nothing, on_outcome) h
    | inr line ↦ rw (line, on_outcome) h
  ]
  on_outcome-Sound junk t too_long c h = InOrder-client c h
  on_outcome-Sound junk t timed_out c h = h
  on_outcome-Sound junk t closed c h = InOrder-client c h
  on_outcome-Sound junk t failed c h = InOrder-client c h
