-- ===== src/Tests/Sockets.antt =====
-- The WebSocket client from its first connection on.
use dfchat.Common.{◌≡◌, refl, false, none, some, List, [], ◌∷◌, length}
use dfchat.Ws.{WsClient, ReadyState, open_state, idle, connect, close}
use dfchat.Ws.Step.{Event, opened, closes, timer, sends, refreshed, run}
use dfchat.Ws.Sound
use dfchat.Ws.Backoff
use dfchat.Ws.Lifecycle
use dfchat.Ws.Recovery

abbrev pub signed_in : WsClient
signed_in = record {
  ws = none;
  sockets = [];
  reconnect_attempts = 0;
  reconnect_timer = none;
  manually_closed = false;
  refresh_in_flight = idle;
  thens = 0;
  heartbeat_timer = false;
  last_pong_at = 0;
  handlers = [];
  open_handlers = [];
  access_token = some "token";
  refresh_token = some "refresh";
  sent = [];
  delivered = [];
}

abbrev pub with_socket : ReadyState → WsClient
with_socket r = record signed_in { ws = some 0; sockets = r ∷ [] }

abbrev events : List Event
events =
    opened 0 100
    ∷ closes false 0 1006
    ∷ timer false
    ∷ closes false 1 4401
    ∷ refreshed false none
    ∷ []

run-connect-IsSound_example : Sound.IsSound (run events (connect false signed_in))
run-connect-IsSound_example = Backoff.run-connect-IsSound false events signed_in refl refl

abbrev late_events : List Event
late_events = closes false 0 1006 ∷ timer false ∷ sends "chat.send" ∷ []

run-close-IsDown_example :
    let t = run late_events (close (with_socket open_state)) in
    Lifecycle.IsDown t × (length t.sockets ≡ 1) × (t.sent ≡ [])
run-close-IsDown_example =
    Lifecycle.run-close-IsDown late_events (with_socket open_state) (tt, (tt, (tt, tt)))

run_after_close_example : Recovery.IsBack (
    run
      (closes false 0 4401 ∷ refreshed false (some ("new", "refresh")) ∷ opened 1 900 ∷ [])
      (with_socket open_state))
run_after_close_example =
    Recovery.run_after_close false 0 4401 900 "new" "refresh" (with_socket open_state) refl refl
      refl refl refl
