-- ===== src/Stratum/Client/Order.antt =====
-- The requests of a session come in order.
use btcrig.Base.{
  ℕ, ◌≡◌, refl, subst, ◌⊎◌, inl, inr, Bool, true, false, ◌&&◌, ◌||◌, List, [], ◌∷◌, Bool-cases,
  Option-cases,
}
use btcrig.Sha256d.OpenSsl.{OpenSsl}
use btcrig.Job.{Doubles}
use btcrig.Stratum.Json.{Json}
use btcrig.Stratum.Lines.{Outcome, got_line, too_long, timed_out, closed, failed, Reader, read_line}
use btcrig.Stratum.Session.{Session, maybe_roll_extranonce}
use btcrig.Stratum.Client.{
  subscribe, ClientConfig, Client, ClientTurn, Step, returns, goes_on, waits, mine, flush_mining,
  handle_keyboard_input, send_authorize, send_suggest, start_period,
}
use btcrig.Stratum.Client.Loop.{
  and_then, on_outcome, on_line, read_next, turn, client_loop, client_init, send_subscribe,
  run_client,
}
use btcrig.Stratum.Client.Requests.{InOrder}
use btcrig.Stratum.Client.Sends.{
  OrderedClient, Sound, Flushed, InOrder-client, and_then-Sound, flush_mining-Flushed,
  send_authorize-Sound, send_suggest-Sound, start_period-Sound, on_outcome-Sound,
}

module _ (lib : OpenSsl) (F : Doubles) (J : Json F.Double) where
  -- What follows a line.
  then_requests-Sound :
      (junk : List ℕ) (config : ClientConfig F.Double) (t : ClientTurn lib F.Double)
      (outcome : Outcome) (c : Client lib F.Double)
      → OrderedClient lib F J c
      → Sound lib F J (
          and_then lib F J
            (and_then lib F J
              (and_then lib F J
                (on_outcome lib F J junk t outcome c)
                (send_authorize lib F J config t.authorize_works))
              (send_suggest lib F J config t.suggest_works))
            (start_period lib F J config))
  then_requests-Sound junk config t outcome c h =
      let begun =
        and_then lib F J (on_outcome lib F J junk t outcome c)
          (send_authorize lib F J config t.authorize_works) in
      let told = and_then lib F J begun (send_suggest lib F J config t.suggest_works) in
      let first =
        and_then-Sound lib F J (on_outcome lib F J junk t outcome c)
          (send_authorize lib F J config t.authorize_works)
          (on_outcome-Sound lib F J junk t outcome c h)
          (send_authorize-Sound lib F J config t.authorize_works) in
      let second =
        and_then-Sound lib F J begun (send_suggest lib F J config t.suggest_works) first
          (send_suggest-Sound lib F J config t.suggest_works) in
      and_then-Sound lib F J told (start_period lib F J config) second
        (start_period-Sound lib F J config)

  on_line-Sound :
      (junk : List ℕ) (config : ClientConfig F.Double) (t : ClientTurn lib F.Double)
      (outcome : Outcome) (c : Client lib F.Double)
      → OrderedClient lib F J c
      → Sound lib F J (on_line lib F J junk config t outcome c)
  unfolding on_line
  on_line-Sound junk config t timed_out c h = h
  on_line-Sound junk config t (got_line text) c h =
      then_requests-Sound junk config t (got_line text) c h
  on_line-Sound junk config t too_long c h = then_requests-Sound junk config t too_long c h
  on_line-Sound junk config t closed c h = then_requests-Sound junk config t closed c h
  on_line-Sound junk config t failed c h = then_requests-Sound junk config t failed c h

  read_next-Sound :
      (junk : List ℕ) (config : ClientConfig F.Double) (t : ClientTurn lib F.Double)
      (c : Client lib F.Double)
      → OrderedClient lib F J c
      → Sound lib F J (read_next lib F J junk config t c)
  unfolding read_next
  read_next-Sound junk config t c h = elim (Option-cases (read_line t.events c.reader)) [
    | inl missing ↦ rw (missing, read_next) h
    | inr found ↦
        rw (found.1, read_next)
          (on_line-Sound junk config t found.0.0
            (record c { reader = found.0.1; session = mine lib F J t.mined_reading c.session }) h)
  ]

  turn-Sound :
      (junk : List ℕ) (config : ClientConfig F.Double) (t : ClientTurn lib F.Double)
      (c : Client lib F.Double)
      → OrderedClient lib F J c
      → Sound lib F J (turn lib F J junk config t c)
  unfolding turn
  turn-Sound junk config t c h = elim (Bool-cases (t.runtime_over || (c.timed && t.period_over))) [
    | inl over ↦ rw (over, turn) (InOrder-client lib F J c h)
    | inr time ↦
        let pressed : Client lib F.Double = record c {
          session = handle_keyboard_input lib F J t.keys (mine lib F J t.mined c.session);
        } in
        let flushed = flush_mining lib F J config.user t.pops t.submit_sent t.submit_time pressed in
        let kept =
          flush_mining-Flushed lib F J config.user t.pops t.submit_sent t.submit_time pressed h in
        elim (Bool-cases flushed.0) [
          | inr broken ↦
              rw (time, broken, turn) (subst (λ b. Flushed lib F J b flushed.1) broken kept)
          | inl whole ↦
              let c1 = flushed.1 in
              rw (time, whole, turn)
                (read_next-Sound junk config t
                  (record c1 {
                    session =
                        maybe_roll_extranonce lib F junk (mine lib F J t.mined_flushed c1.session);
                  })
                  (subst (λ b. Flushed lib F J b flushed.1) whole kept))
        ]
  ]

  client_loop-Sound :
      (junk : List ℕ) (config : ClientConfig F.Double) (ts : List (ClientTurn lib F.Double))
      (c : Client lib F.Double)
      → OrderedClient lib F J c
      → Sound lib F J (client_loop lib F J junk config ts c)
  unfolding client_loop
  client_loop-Sound junk config [] c h = h
  client_loop-Sound junk config (t ∷ ts) c h =
      and_then-Sound lib F J (turn lib F J junk config t c) (client_loop lib F J junk config ts)
        (turn-Sound junk config t c h) (client_loop-Sound junk config ts)

  -- The client that a step leaves, whatever it came to.
  abbrev pub client_of : Step lib F.Double → Client lib F.Double
  client_of (returns rc c) = c
  client_of (goes_on c) = c
  client_of (waits c) = c

  left_InOrder : (step : Step lib F.Double) → Sound lib F J step → InOrder (client_of step).sent
  left_InOrder (returns rc c) h = h
  left_InOrder (goes_on c) h = InOrder-client lib F J c h
  left_InOrder (waits c) h = InOrder-client lib F J c h

  -- Whatever the pool sends, the clock says, the user types and the connection does, and whatever the
  -- workers of the miner do meanwhile: where mining.subscribe cannot be sent, the session sends
  -- nothing; else, of the requests that it sends, mining.subscribe comes first and once, the submitted
  -- shares have the ids from 4 on in their order, each id once, and mining.authorize and
  -- mining.suggest_difficulty are sent once at most.
  pub run_client-InOrder :
      (junk : List ℕ) (config : ClientConfig F.Double) (subscribe_works : Bool)
      (ts : List (ClientTurn lib F.Double)) (session : Session lib F.Double) (reader : Reader)
      → ((subscribe_works ≡ false)
          × ((client_of (run_client lib F J junk config subscribe_works ts session reader)).sent
              ≡ []))
        ⊎ ((subscribe_works ≡ true)
            × InOrder
                (client_of (run_client lib F J junk config subscribe_works ts session reader)).sent)
  unfolding run_client client_init send_subscribe and_then
  run_client-InOrder junk config false ts session reader = inl (refl, refl)
  run_client-InOrder junk config true ts session reader =
      let begun : Client lib F.Double = record (client_init lib F J session reader) {
        sent = subscribe ∷ [];
      } in
      let ordered : OrderedClient lib F J begun = record {
        begins = ([], refl);
        subscribed_once = refl;
        ids = refl;
        authorized = refl;
        suggested = refl;
        next_id = refl;
      } in
      inr (
        refl,
        left_InOrder (client_loop lib F J junk config ts begun)
            (client_loop-Sound junk config ts begun ordered),
      )
