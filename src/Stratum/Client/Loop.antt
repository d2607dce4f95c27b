-- ===== src/Stratum/Client/Loop.antt =====
-- The loop of stratum_run_client: what a turn does in its order, and the turns.
use btcrig.Base.{
  ℕ, Bool, false, not, ◌&&◌, ◌||◌, none, some, List, [], ◌∷◌, ◌++◌, ◌==◌, if◌then◌else◌, get_or,
}
use btcrig.Sha256d.OpenSsl.{OpenSsl}
use btcrig.CString.{c_string}
use btcrig.Job.{Doubles}
use btcrig.Stratum.Json.{Json}
use btcrig.Stratum.Lines.{Outcome, got_line, too_long, timed_out, closed, failed, Reader, read_line}
use btcrig.Stratum.Session.{Session, maybe_roll_extranonce}
use btcrig.Stratum.Handlers.{process_line}
use btcrig.Stratum.Client.{
  subscribe, ClientConfig, Client, ClientTurn, Step, returns, goes_on, waits, mine, flush_mining,
  handle_keyboard_input, send_authorize, send_suggest, start_period,
}

module _ (lib : OpenSsl) (F : Doubles) (J : Json F.Double) where
  unfoldable pub and_then :
      Step lib F.Double → (Client lib F.Double → Step lib F.Double) → Step lib F.Double
  and_then (returns rc c) next = returns rc c
  and_then (goes_on c) next = next c
  and_then (waits c) next = waits c

  -- What read_line came to: a line is processed up to its first NUL, and not where it begins with one.
  unfoldable pub on_outcome :
      List ℕ → ClientTurn lib F.Double → Outcome → Client lib F.Double → Step lib F.Double
  on_outcome junk t (got_line text) c =
      let processed = (process_line lib F J junk c.session (c_string text) t.line_time).1 in
      goes_on (if get_or text 0 0 == 0 then c else record c { session = processed })
  on_outcome junk t too_long c = returns 1 c
  on_outcome junk t timed_out c = goes_on c
  on_outcome junk t closed c = returns 1 c
  on_outcome junk t failed c = returns 1 c

  -- Behind a line the requests that it allows are sent; a timeout begins the next turn at once.
  unfoldable pub on_line :
      List ℕ
      → ClientConfig F.Double
      → ClientTurn lib F.Double
      → Outcome
      → Client lib F.Double
      → Step lib F.Double
  unfolding on_outcome send_authorize send_suggest start_period and_then
  on_line junk config t timed_out c = goes_on c
  on_line junk config t outcome c =
      and_then
        (and_then
          (and_then (on_outcome junk t outcome c) (send_authorize lib F J config t.authorize_works))
          (send_suggest lib F J config t.suggest_works))
        (start_period lib F J config)

  -- The call of read_line.
  unfoldable pub read_next :
      List ℕ
      → ClientConfig F.Double
      → ClientTurn lib F.Double
      → Client lib F.Double
      → Step lib F.Double
  unfolding on_line
  read_next junk config t c = elim (read_line t.events c.reader) [
    | none ↦ waits c
    | some found ↦
        on_line junk config t found.0
          (record c { reader = found.1; session = mine lib F J t.mined_reading c.session })
  ]

  -- One turn of the loop.
  unfoldable pub turn :
      List ℕ
      → ClientConfig F.Double
      → ClientTurn lib F.Double
      → Client lib F.Double
      → Step lib F.Double
  unfolding mine handle_keyboard_input flush_mining read_next
  turn junk config t c =
      let pressed = record c {
        session = handle_keyboard_input lib F J t.keys (mine lib F J t.mined c.session);
      } in
      let (flushed, c1) =
        flush_mining lib F J config.user t.pops t.submit_sent t.submit_time pressed in
      let mined = mine lib F J t.mined_flushed c1.session in
      let rolled = record c1 { session = maybe_roll_extranonce lib F junk mined } in
      if t.runtime_over || (c.timed && t.period_over)
      then returns 0 c
      else if not flushed
      then returns 1 c1
      else read_next junk config t rolled

  -- The loop on the turns that it meets.
  unfoldable pub client_loop :
      List ℕ
      → ClientConfig F.Double
      → List (ClientTurn lib F.Double)
      → Client lib F.Double
      → Step lib F.Double
  unfolding turn and_then
  client_loop junk config [] c = goes_on c
  client_loop junk config (t ∷ ts) c = and_then (turn junk config t c) (client_loop junk config ts)

  -- The variables before the first request.
  unfoldable pub client_init : Session lib F.Double → Reader → Client lib F.Double
  client_init session reader = record {
    session = session;
    reader = reader;
    authorize_sent = false;
    suggest_sent = false;
    next_rpc_id = 4;
    timed = false;
    sent = [];
  }

  -- The call of send_subscribe
  unfoldable pub send_subscribe : Bool → Client lib F.Double → Step lib F.Double
  send_subscribe works c =
      if works then goes_on (record c { sent = c.sent ++ (subscribe ∷ []) }) else returns 1 c

  -- stratum_run_client from send_subscribe on, with the session that is set up and the reader.
  unfoldable pub run_client :
      List ℕ
      → ClientConfig F.Double
      → Bool
      → List (ClientTurn lib F.Double)
      → Session lib F.Double
      → Reader
      → Step lib F.Double
  unfolding client_init send_subscribe client_loop
  run_client junk config subscribe_works ts session reader =
      and_then (send_subscribe subscribe_works (client_init session reader))
        (client_loop junk config ts)
