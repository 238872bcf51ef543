-- ===== src/Ws/Backoff.antt =====
-- client/src/ws/client.ts: what is left after any events, and the delays of `scheduleReconnect`.
use dfchat.Common.{
  ℕ, ◌≡◌, refl, Bool, false, none, some, List, [], ◌∷◌, arith, nat_eq, if◌then◌else◌, ◌≢◌,
}
use dfchat.Ws.{
  WsClient, idle, close_token_expired, close_too_many_conns, schedule_reconnect, connect, on_open,
  on_message, on_close, on, off, add_open_handler, remove_open_handler, close,
}
use dfchat.Ws.Step.{
  Event, connects, opened, message, closes, refreshed, refresh_cleared, timer, heartbeat, sends,
  listens, unlistens, listens_open, unlistens_open, shuts, signed_out, step, run,
}
use dfchat.Ws.Sound.{
  connect-IsSound, paused, on_close-IsSound, on_refreshed-IsSound, on_refresh_cleared-IsSound,
  on_reconnect_timer-IsSound, on_heartbeat-IsSound, send-IsSound, IsSound, delay,
}

step-IsSound : (e : Event) (s : WsClient) → IsSound s → IsSound (step e s)
unfolding step on_open on_message on off add_open_handler remove_open_handler close
step-IsSound (connects b) s h = connect-IsSound b s (paused s h)
step-IsSound (opened i now) s h = record {
  bounded = h.bounded;
  awaited = h.awaited;
  alive = h.alive;
}
step-IsSound (message now none) s h = h
step-IsSound (message now (some type)) s h = ground (arith, h.bounded, h.awaited, h.alive)
step-IsSound (closes b i code) s h = on_close-IsSound b i code s (paused s h)
step-IsSound (refreshed b tokens) s h = on_refreshed-IsSound b tokens s.refresh_in_flight s refl h
step-IsSound refresh_cleared s h = on_refresh_cleared-IsSound s.refresh_in_flight s refl h
step-IsSound (timer b) s h = on_reconnect_timer-IsSound b s h
step-IsSound (heartbeat now) s h = on_heartbeat-IsSound now s h
step-IsSound (sends type) s h = send-IsSound type s h
step-IsSound (listens i) s h = record { bounded = h.bounded; awaited = h.awaited; alive = h.alive }
step-IsSound (unlistens i) s h = record {
  bounded = h.bounded;
  awaited = h.awaited;
  alive = h.alive;
}
step-IsSound (listens_open i) s h = record {
  bounded = h.bounded;
  awaited = h.awaited;
  alive = h.alive;
}
step-IsSound (unlistens_open i) s h = record {
  bounded = h.bounded;
  awaited = h.awaited;
  alive = h.alive;
}
step-IsSound shuts s h = record { bounded = tt; awaited = h.awaited; alive = refl }
step-IsSound signed_out s h = record {
  bounded = h.bounded;
  awaited = h.awaited;
  alive = ground arith;
}

run-IsSound : (es : List Event) (s : WsClient) → IsSound s → IsSound (run es s)
unfolding run
run-IsSound [] s h = h
run-IsSound (e ∷ es) s h = run-IsSound es (step e s) (step-IsSound e s h)

-- Whatever events come in whatever order after a first `connect`, with sockets that fail to be made,
-- that close for any reason, and refreshes that fail or not: a reconnect timer that runs was set for
-- one to thirty seconds, a refresh that runs has a continuation, and the client is never left
-- without anything that brings the connection back, unless `close` was called, a refresh failed or
-- there is no token.
pub run-connect-IsSound :
    (b : Bool) (es : List Event) (s : WsClient)
    → s.reconnect_timer ≡ none
    → s.refresh_in_flight ≡ idle
    → IsSound (run es (connect b s))
run-connect-IsSound b es s unset rested =
    run-IsSound es (connect b s)
      (connect-IsSound b s (record { bounded = rw unset tt; awaited = rw rested refl }))

-- A close for too many connections sets the timer to thirty seconds, from whatever number of
-- attempts, where no timer runs and `close` was not called; a close for any other reason but an
-- expired token doubles the delay with each attempt, up to thirty seconds.
pub on_close-delay :
    (b : Bool) (i code : ℕ) (s : WsClient)
    → s.reconnect_timer ≡ none
    → s.manually_closed ≡ false
    → code ≢ close_token_expired
    → (on_close b i code s).reconnect_timer
      ≡ some (if nat_eq code close_too_many_conns then 30000 else delay s.reconnect_attempts)
unfolding on_close schedule_reconnect
on_close-delay b i code s unset up other = ground (arith, unset, up)
