-- ===== src/Stratum/Client/Bounds.antt =====
-- What a session stores fits, from its start on.
use btcrig.Base.{
  if-keeps, ℕ, zero, suc, ◌+◌, inl, inr, Bool, true, false, not, ◌&&◌, ◌||◌, Option, List, [], ◌∷◌,
  ◌++◌, ltb, ◌==◌, Bool-cases, Option-cases, get_or,
}
use btcrig.Sha256d.OpenSsl.{OpenSsl}
use btcrig.Sha256d.Midstate.{Midstate}
use btcrig.CString.{c_string}
use btcrig.Miner.{Miner}
use btcrig.Miner.Workers.{Section}
use btcrig.Job.{Doubles}
use btcrig.Stratum.Json.{Json}
use btcrig.Stratum.Lines.{Outcome, got_line, too_long, timed_out, closed, failed, Reader, read_line}
use btcrig.Stratum.Session.{Session, flush_share, maybe_roll_extranonce, session_init}
use btcrig.Stratum.Handlers.{process_line}
use btcrig.Stratum.Handlers.Fit.{IsFit}
use btcrig.Stratum.Handlers.Lines.{process_line-IsFit}
use btcrig.Stratum.Client.{
  submit, ClientConfig, Client, ClientTurn, Step, returns, goes_on, waits, Pop, mine, next_share,
  flush_next, flush_loop, waiting_shares, flush_shares, flush_mining, handle_keyboard_input,
  send_authorize, send_suggest, start_period, Key,
}
use btcrig.Stratum.Client.Loop.{
  and_then, on_outcome, on_line, read_next, turn, client_loop, client_init, send_subscribe,
  run_client,
}
use btcrig.Stratum.Client.Order.{client_of}
use btcrig.Stratum.Client.Fits.{with_miner, flush_share-IsFit, maybe_roll-IsFit, session_init-IsFit}

module _ (lib : OpenSsl) (F : Doubles) (J : Json F.Double) where
  -- A client whose session fits, and what a step leaves.
  abbrev FitStep : Step lib F.Double → Type 0
  FitStep (returns rc c) = IsFit c.session
  FitStep (goes_on c) = IsFit c.session
  FitStep (waits c) = IsFit c.session

  and_then-FitStep :
      (step : Step lib F.Double) (next : Client lib F.Double → Step lib F.Double)
      → FitStep step
      → ((c : Client lib F.Double) → IsFit c.session → FitStep (next c))
      → FitStep (and_then lib F J step next)
  unfolding and_then
  and_then-FitStep (returns rc c) next h go = h
  and_then-FitStep (goes_on c) next h go = go c h
  and_then-FitStep (waits c) next h go = h

  mine-IsFit :
      (done : List (Section (Midstate lib))) (s : Session lib F.Double)
      → IsFit s
      → IsFit (mine lib F J done s)
  unfolding mine
  mine-IsFit done s h = elim (Option-cases s.miner) [
    | inl none_there ↦ rw (none_there, mine) h
    | inr m ↦ rw (m.1, mine) (with_miner lib F s _ h)
  ]

  flush_next-IsFit :
      (user : List ℕ) (sends : Bool) (now : F.Double)
      (rest : Client lib F.Double → Bool × Client lib F.Double) (c : Client lib F.Double)
      → ((d : Client lib F.Double) → IsFit d.session → IsFit (rest d).1.session)
      → IsFit c.session
      → IsFit (flush_next lib F J user sends now rest c).1.session
  unfolding flush_next
  flush_next-IsFit user sends now rest c go h = elim (Option-cases (next_share lib F J c.session)) [
    | inl empty ↦ rw (empty, flush_next) h
    | inr found ↦ elim (Bool-cases sends) [
      | inr fails ↦
          rw (found.1, fails, flush_next)
            (flush_share-IsFit lib F c.session c.next_rpc_id false now h)
      | inl sent ↦
          rw (found.1, sent, flush_next)
            (go
              (record c {
                session = (flush_share lib F c.session c.next_rpc_id true now).1;
                next_rpc_id = c.next_rpc_id + 1;
                sent = c.sent ++ (submit c.next_rpc_id user found.0 ∷ []);
              })
              (flush_share-IsFit lib F c.session c.next_rpc_id true now h))
    ]
  ]

  flush_loop-IsFit :
      (user : List ℕ) (works : ℕ → Bool) (time : ℕ → F.Double) (n : ℕ) (c : Client lib F.Double)
      → IsFit c.session
      → IsFit (flush_loop lib F J user works time n c).1.session
  unfolding flush_loop
  flush_loop-IsFit user works time zero c h = h
  flush_loop-IsFit user works time (suc n) c h =
      flush_next-IsFit user (works n) (time n) (flush_loop lib F J user works time n) c
        (flush_loop-IsFit user works time n) h

  flush_mining-IsFit :
      (user : List ℕ) (pops : List (Pop (Midstate lib) F.Double)) (works : ℕ → Bool)
      (time : ℕ → F.Double) (c : Client lib F.Double)
      → IsFit c.session
      → IsFit (flush_mining lib F J user pops works time c).1.session
  unfolding flush_mining flush_shares
  flush_mining-IsFit user [] works time c h =
      flush_loop-IsFit user works time (waiting_shares lib F J c.session) c h
  flush_mining-IsFit user (p ∷ ps) works time c h =
      flush_next-IsFit user p.sends p.now (flush_mining lib F J user ps works time)
        (record c { session = mine lib F J p.mined c.session })
        (flush_mining-IsFit user ps works time) (mine-IsFit p.mined c.session h)

  keyboard-IsFit :
      (keys : List (Key (Midstate lib))) (s : Session lib F.Double)
      → IsFit s
      → IsFit (handle_keyboard_input lib F J keys s)
  unfolding handle_keyboard_input
  keyboard-IsFit keys s h = elim (Option-cases s.miner) [
    | inl none_there ↦ rw (none_there, handle_keyboard_input) h
    | inr m ↦ rw (m.1, handle_keyboard_input) (with_miner lib F s _ h)
  ]

  requests-FitStep :
      (config : ClientConfig F.Double) (t : ClientTurn lib F.Double) (step : Step lib F.Double)
      → FitStep step
      → FitStep (
          and_then lib F J
            (and_then lib F J
              (and_then lib F J step (send_authorize lib F J config t.authorize_works))
              (send_suggest lib F J config t.suggest_works))
            (start_period lib F J config))
  unfolding send_authorize send_suggest start_period
  requests-FitStep config t step h =
      let told : Step lib F.Double =
        and_then lib F J step (send_authorize lib F J config t.authorize_works) in
      and_then-FitStep (and_then lib F J told (send_suggest lib F J config t.suggest_works))
        (start_period lib F J config)
        (and_then-FitStep told (send_suggest lib F J config t.suggest_works)
          (and_then-FitStep step (send_authorize lib F J config t.authorize_works) h
            (λ (c : Client lib F.Double) k.
              if-keeps FitStep (c.session.subscribed && not c.authorize_sent)
                (if-keeps FitStep t.authorize_works k k) k))
          (λ (c : Client lib F.Double) k.
            if-keeps FitStep
              (c.session.authorized && F.below (F.of_nat 0) config.suggested && not c.suggest_sent)
              (if-keeps FitStep t.suggest_works k k) k))
        (λ (c : Client lib F.Double) k.
          if-keeps FitStep
            (not c.timed
              && F.below (F.of_nat 0) config.session_seconds
              && c.session.authorized
              && ltb 0 c.session.notify_count)
            k k)

  on_line-FitStep :
      (junk : List ℕ) (config : ClientConfig F.Double) (t : ClientTurn lib F.Double)
      (outcome : Outcome) (c : Client lib F.Double)
      → IsFit c.session
      → FitStep (on_line lib F J junk config t outcome c)
  unfolding on_line on_outcome
  on_line-FitStep junk config t timed_out c h = h
  on_line-FitStep junk config t (got_line text) c h =
      let processed = (process_line lib F J junk c.session (c_string text) t.line_time).1 in
      requests-FitStep config t (on_outcome lib F J junk t (got_line text) c) (
        if-keeps (λ (d : Client lib F.Double). IsFit d.session) (get_or text 0 0 == 0) h
          (process_line-IsFit lib F J junk c.session (c_string text) t.line_time h))
  on_line-FitStep junk config t too_long c h = h
  on_line-FitStep junk config t closed c h = h
  on_line-FitStep junk config t failed c h = h

  read_next-FitStep :
      (junk : List ℕ) (config : ClientConfig F.Double) (t : ClientTurn lib F.Double)
      (c : Client lib F.Double)
      → IsFit c.session
      → FitStep (read_next lib F J junk config t c)
  unfolding read_next
  read_next-FitStep junk config t c h = elim (Option-cases (read_line t.events c.reader)) [
    | inl missing ↦ rw (missing, read_next) h
    | inr found ↦
        rw (found.1, read_next)
          (on_line-FitStep junk config t found.0.0
            (record c { reader = found.0.1; session = mine lib F J t.mined_reading c.session })
            (mine-IsFit t.mined_reading c.session h))
  ]

  turn-FitStep :
      (junk : List ℕ) (config : ClientConfig F.Double) (t : ClientTurn lib F.Double)
      (c : Client lib F.Double)
      → IsFit c.session
      → FitStep (turn lib F J junk config t c)
  unfolding turn
  turn-FitStep junk config t c h =
      let pressed : Client lib F.Double = record c {
        session = handle_keyboard_input lib F J t.keys (mine lib F J t.mined c.session);
      } in
      let flushed = flush_mining lib F J config.user t.pops t.submit_sent t.submit_time pressed in
      let kept =
        flush_mining-IsFit config.user t.pops t.submit_sent t.submit_time pressed (
          keyboard-IsFit t.keys (mine lib F J t.mined c.session)
            (mine-IsFit t.mined c.session h)) in
      let c1 = flushed.1 in
      let rolled : Client lib F.Double = record c1 {
        session = maybe_roll_extranonce lib F junk (mine lib F J t.mined_flushed c1.session);
      } in
      let rolled_fits =
        maybe_roll-IsFit lib F junk (mine lib F J t.mined_flushed c1.session)
          (mine-IsFit t.mined_flushed c1.session kept) in
      if-keeps FitStep (t.runtime_over || (c.timed && t.period_over)) h
        (if-keeps FitStep (not flushed.0) kept (read_next-FitStep junk config t rolled rolled_fits))

  client_loop-FitStep :
      (junk : List ℕ) (config : ClientConfig F.Double) (ts : List (ClientTurn lib F.Double))
      (c : Client lib F.Double)
      → IsFit c.session
      → FitStep (client_loop lib F J junk config ts c)
  unfolding client_loop
  client_loop-FitStep junk config [] c h = h
  client_loop-FitStep junk config (t ∷ ts) c h =
      and_then-FitStep (turn lib F J junk config t c) (client_loop lib F J junk config ts)
        (turn-FitStep junk config t c h) (client_loop-FitStep junk config ts)

  FitStep-client :
      (step : Step lib F.Double) → FitStep step → IsFit (client_of lib F J step).session
  FitStep-client (returns rc c) h = h
  FitStep-client (goes_on c) h = h
  FitStep-client (waits c) h = h

  -- From stratum_state_init on, whatever lines the pool sends and in whatever pieces, whatever ranges
  -- the workers of the miner take and whatever shares they report, before and between the calls of the
  -- loop, and whether the shares can be sent: every string and every branch that the session stores
  -- fits its array, and the table of submitted shares is sound.
  pub run_client-IsFit :
      (junk : List ℕ) (config : ClientConfig F.Double) (subscribe_works : Bool)
      (ts : List (ClientTurn lib F.Double)) (miner : Option (Miner (Midstate lib) F.Double))
      (reader : Reader)
      → IsFit
          (client_of lib F J (
            run_client lib F J junk config subscribe_works ts
              (session_init lib F miner)
              reader)).session
  unfolding run_client client_init send_subscribe
  run_client-IsFit junk config subscribe_works ts miner reader =
      let begun = client_init lib F J (session_init lib F miner) reader in
      let started = send_subscribe lib F J subscribe_works begun in
      let fits = session_init-IsFit lib F miner in
      FitStep-client (and_then lib F J started (client_loop lib F J junk config ts)) (
        and_then-FitStep started (client_loop lib F J junk config ts)
          (if-keeps FitStep subscribe_works fits fits) (client_loop-FitStep junk config ts))
