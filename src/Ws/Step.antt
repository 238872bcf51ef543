-- ===== src/Ws/Step.antt =====
-- The events that reach the client of client/src/ws/client.ts, as steps of its state.
use dfchat.Common.{ℕ, String, Bool, Option, none, List, [], ◌∷◌}
use dfchat.Ws.{
  WsClient, connect, on_open, on_message, on_close, on_refreshed, on_refresh_cleared,
  on_reconnect_timer, on_heartbeat, send, on, off, add_open_handler, remove_open_handler, close,
}

-- A call of the client, a browser event or a timer. The first argument of those that may open a
-- socket says whether the constructor throws. `signed_out` is the loss of the tokens elsewhere.
pub data Event : Type 0 where
  connects : Bool → Event
  opened : (socket now : ℕ) → Event
  message : (now : ℕ) → Option String → Event
  closes : Bool → (socket code : ℕ) → Event
  refreshed : Bool → Option (String × String) → Event
  refresh_cleared : Event
  timer : Bool → Event
  heartbeat : (now : ℕ) → Event
  sends : String → Event
  listens unlistens listens_open unlistens_open : ℕ → Event
  shuts : Event
  signed_out : Event

unfoldable pub step : Event → WsClient → WsClient
step (connects throws) s = connect throws s
step (opened i now) s = on_open i now s
step (message now type) s = on_message now type s
step (closes throws i code) s = on_close throws i code s
step (refreshed throws tokens) s = on_refreshed throws tokens s
step refresh_cleared s = on_refresh_cleared s
step (timer throws) s = on_reconnect_timer throws s
step (heartbeat now) s = on_heartbeat now s
step (sends type) s = (send type s).0
step (listens h) s = on h s
step (unlistens h) s = off h s
step (listens_open h) s = add_open_handler h s
step (unlistens_open h) s = remove_open_handler h s
step shuts s = close s
step signed_out s = record s { access_token = none; refresh_token = none }

unfoldable pub run : List Event → WsClient → WsClient
run [] s = s
run (e ∷ es) s = run es (step e s)
