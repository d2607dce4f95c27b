-- ===== src/Stratum/Client.antt =====
-- The loop of stratum_run_client in stratum.c with flush_shares and handle_keyboard_input: the
-- requests that a session sends, in their order. Whether a send succeeds, what the connection gives,
-- the keys, the tests of the clock and what the workers of the miner do meanwhile are data of a turn.
pub mod Loop
pub mod Requests
pub mod Sends
pub mod Order
pub mod Flush
pub mod Fits
pub mod Bounds
use btcrig.Base.{
  ℕ, zero, suc, ◌+◌, ◌-◌, ◌*◌, ◌/◌, ◌%◌, ◌^◌, ◌≤◌, ◌<◌, min, max, bit_and, bit_or, bit_xor, ◌≡◌,
  refl, sym, ap, ap₂, ◌∙◌, subst, ◌≢◌, ◌↔◌, ◌⊎◌, inl, inr, Bool, true, false, not, ◌&&◌, ◌||◌,
  Option, none, some, List, [], ◌∷◌, ◌++◌, map, arith, ltb, leb, ◌==◌, if◌then◌else◌, ltb→lt,
  lt→ltb, leb→le, ==_iff, tests, Bool-cases, Option-cases, length, get_or, set, take, drop,
  replicate, All, length-append, length-set, length-take, length-drop, length-replicate,
  take-append-drop, take_append, drop_append, get_or-set_self, get_or-set_ne, get_or-take,
  get_or_ext, All-append, All-take, All-drop, All-get_or, length-map, ◌>>=◌, take_whole,
  take-append, range_from, range_from-suc,
}
use btcrig.Sha256d.OpenSsl.{OpenSsl}
use btcrig.CString.{c_string}
use btcrig.Job.{Doubles, hash_difficulty}
use btcrig.Sha256d.Midstate.{Midstate}
use btcrig.Miner.{Miner, Share}
use btcrig.Miner.Workers.{Section, sections}
use btcrig.Miner.Control.{set_paused, pop_share}
use btcrig.Stratum.Json.{Json}
use btcrig.Stratum.Lines.{
  Event, Outcome, got_line, too_long, timed_out, closed, failed, Reader, read_line,
}
use btcrig.Stratum.Session.{Session, maybe_roll_extranonce, flush_share}
use btcrig.Stratum.Handlers.{process_line}

-- What send_subscribe, send_authorize, send_suggest_difficulty and send_submit_share send; the first
-- three have the ids 1, 2 and 3.
pub data Request (D : Type 0) : Type 0 where
  subscribe : Request D
  authorize : List ℕ → List ℕ → Request D
  suggest_difficulty : D → Request D
  submit : ℕ → List ℕ → Share D → Request D

-- The parameters of stratum_run_client
pub record ClientConfig (D : Type 0) : Type 0 where
  pub user : List ℕ
  pub password : List ℕ
  pub suggested : D
  pub session_seconds : D

-- The variables of the loop. `timed` says that session_stop_at is set; `sent` are the requests that
-- were written in full.
pub record Client (lib : OpenSsl) (D : Type 0) : Type 0 where
  pub session : Session lib D
  pub reader : Reader
  pub authorize_sent : Bool
  pub suggest_sent : Bool
  pub next_rpc_id : ℕ
  pub timed : Bool
  pub sent : List (Request D)

-- A key, and what the workers do until the next call that reads the miner.
pub record Key (M : Type 0) : Type 0 where
  pub ch : ℕ
  pub mined : List (Section M)

-- A turn of the loop of flush_shares: what the workers do before miner_pop_share, whether the share is
-- sent, and the time at which it is noted.
pub record Pop (M D : Type 0) : Type 0 where
  pub mined : List (Section M)
  pub sends : Bool
  pub now : D

-- What one turn meets: the tests of stop_at and of session_stop_at, the keys, the results of the sends
-- and the times at them, the events of read_line, and the time of the line. The workers run before the
-- keys, behind each of them, before each of `pops`, before maybe_roll_extranonce and before the line is
-- processed; what they do at other times is not seen before the next of these. `pops` are the turns of
-- flush_shares up to the last one before which the workers still do something; those behind it have
-- the results of `submit_sent` and `submit_time`.
pub record ClientTurn (lib : OpenSsl) (D : Type 0) : Type 0 where
  pub runtime_over : Bool
  pub period_over : Bool
  pub mined : List (Section (Midstate lib))
  pub keys : List (Key (Midstate lib))
  pub pops : List (Pop (Midstate lib) D)
  pub submit_sent : ℕ → Bool
  pub submit_time : ℕ → D
  pub mined_flushed : List (Section (Midstate lib))
  pub events : List Event
  pub mined_reading : List (Section (Midstate lib))
  pub line_time : D
  pub authorize_works : Bool
  pub suggest_works : Bool

-- What a turn comes to: the function returns, or the loop goes on, or the turn still waits in
-- read_line.
pub data Step (lib : OpenSsl) (D : Type 0) : Type 0 where
  returns : ℕ → Client lib D → Step lib D
  goes_on : Client lib D → Step lib D
  waits : Client lib D → Step lib D

module _ (lib : OpenSsl) (F : Doubles) (J : Json F.Double) where
  -- What the workers do to the miner of a session.
  unfoldable pub mine : List (Section (Midstate lib)) → Session lib F.Double → Session lib F.Double
  mine done s = elim s.miner [
    | none ↦ s
    | some m ↦ record s { miner = some (sections (hash_difficulty F) m done) }
  ]

  -- The share that miner_pop_share finds.
  unfoldable pub next_share : Session lib F.Double → Option (Share F.Double)
  next_share s = elim s.miner [
    | none ↦ none
    | some m ↦ let (found, share, rest) = pop_share m in if found then share else none
  ]

  -- A turn of the loop of flush_shares, and the `rest` of the loop; the flag is false where the send
  -- failed.
  unfoldable pub flush_next :
      List ℕ
      → Bool
      → F.Double
      → (Client lib F.Double → Bool × Client lib F.Double)
      → Client lib F.Double
      → Bool × Client lib F.Double
  unfolding next_share
  flush_next user sends now rest c =
      let id = c.next_rpc_id in
      let after = (flush_share lib F c.session id sends now).1 in
      elim (next_share c.session) [
        | none ↦ (true, c)
        | some share ↦
            if sends
            then rest (record c {
              session = after;
              next_rpc_id = id + 1;
              sent = c.sent ++ (submit id user share ∷ []);
            })
            else (false, record c { session = after; next_rpc_id = id + 1 })
      ]

  -- The loop while the workers find nothing, `n` turns of it at most.
  unfoldable pub flush_loop :
      List ℕ → (ℕ → Bool) → (ℕ → F.Double) → ℕ → Client lib F.Double → Bool × Client lib F.Double
  unfolding flush_next
  flush_loop user works time zero c = (true, c)
  flush_loop user works time (suc n) c =
      flush_next user (works n) (time n) (flush_loop user works time n) c

  -- The shares that wait, which are the turns of that loop.
  unfoldable pub waiting_shares : Session lib F.Double → ℕ
  waiting_shares s = elim s.miner [ none ↦ 0 | some m ↦ m.queue.share_count ]

  unfoldable pub flush_shares :
      List ℕ → (ℕ → Bool) → (ℕ → F.Double) → Client lib F.Double → Bool × Client lib F.Double
  unfolding flush_loop waiting_shares
  flush_shares user works time c = flush_loop user works time (waiting_shares c.session) c

  -- flush_shares while the workers find shares.
  unfoldable pub flush_mining :
      List ℕ
      → List (Pop (Midstate lib) F.Double)
      → (ℕ → Bool)
      → (ℕ → F.Double)
      → Client lib F.Double
      → Bool × Client lib F.Double
  unfolding mine flush_next flush_shares
  flush_mining user [] works time c = flush_shares user works time c
  flush_mining user (p ∷ ps) works time c =
      flush_next user p.sends p.now (flush_mining user ps works time)
        (record c { session = mine p.mined c.session })

  -- The miner after a key of handle_keyboard_input; the other keys print.
  unfoldable pub press : ℕ → Miner (Midstate lib) F.Double → Miner (Midstate lib) F.Double
  press ch m =
      if (ch == b'p') || (ch == b'P')
      then if m.paused then m else set_paused m true
      else if (ch == b'r') || (ch == b'R')
      then if not m.paused then m else set_paused m false
      else m

  unfoldable pub press_all :
      List (Key (Midstate lib)) → Miner (Midstate lib) F.Double → Miner (Midstate lib) F.Double
  unfolding press
  press_all [] m = m
  press_all (k ∷ keys) m = press_all keys (sections (hash_difficulty F) (press k.ch m) k.mined)

  unfoldable pub handle_keyboard_input :
      List (Key (Midstate lib)) → Session lib F.Double → Session lib F.Double
  unfolding press_all
  handle_keyboard_input keys s = elim s.miner [
    | none ↦ s
    | some m ↦ record s { miner = some (press_all keys m) }
  ]

  -- A request that is sent at most once, and the return where it cannot be sent.
  unfoldable pub send_authorize :
      ClientConfig F.Double → Bool → Client lib F.Double → Step lib F.Double
  send_authorize config works c =
      if c.session.subscribed && not c.authorize_sent
      then if works
        then goes_on (record c {
          authorize_sent = true;
          sent = c.sent ++ (authorize config.user config.password ∷ []);
        })
        else returns 1 c
      else goes_on c

  unfoldable pub send_suggest :
      ClientConfig F.Double → Bool → Client lib F.Double → Step lib F.Double
  send_suggest config works c =
      if c.session.authorized && F.below (F.of_nat 0) config.suggested && not c.suggest_sent
      then if works
        then goes_on (record c {
          suggest_sent = true;
          sent = c.sent ++ (suggest_difficulty config.suggested ∷ []);
        })
        else returns 1 c
      else goes_on c

  -- The start of a timed session: with the first job after the authorization.
  unfoldable pub start_period : ClientConfig F.Double → Client lib F.Double → Step lib F.Double
  start_period config c =
      if not c.timed
        && F.below (F.of_nat 0) config.session_seconds
        && c.session.authorized
        && ltb 0 c.session.notify_count
      then goes_on (record c { timed = true })
      else goes_on c
