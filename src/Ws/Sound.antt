-- ===== src/Ws/Sound.antt =====
-- client/src/ws/client.ts: what the handlers leave of the timer, the refresh and the socket.
use dfchat.Common.{
  ℕ, zero, suc, ◌*◌, ◌^◌, ◌≤◌, min, ◌≡◌, refl, Bool, true, false, Option, none, some, arith, String,
  is_some, not, ltb, ◌||◌, Option-cases, Bool-cases, inl, inr, set,
}
use native.Mathlib.Nat.{pow-suc}
use dfchat.Ws.{
  WsClient, Refresh, idle, running, settled, closed, schedule_reconnect, truthy, open_socket,
  connect, after_refresh, handle_token_expired, on_close, run_thens, on_refreshed,
  on_refresh_cleared, on_reconnect_timer, on_heartbeat, send,
}

one-le-pow : (n : ℕ) → 1 ≤ 2 ^ n
one-le-pow zero = omega arith
one-le-pow (suc n) = rw (pow-suc 2 n) (omega (arith, one-le-pow n))

-- A timer that runs was set for one to thirty seconds.
abbrev pub OkTimer : Option ℕ → Type 0
OkTimer none = Unit {0}
OkTimer (some d) = (1000 ≤ d) × (d ≤ 30000)

-- The delay after so many attempts since the last open socket.
abbrev pub delay : ℕ → ℕ
delay n = min (1000 * 2 ^ n) 30000

pub delay_bounds : (n : ℕ) → (1000 ≤ delay n) × (delay n ≤ 30000)
delay_bounds n = omega (arith, one-le-pow n)

abbrev is_running : Refresh → Bool
is_running running = true
is_running _ = false

-- Something will bring the connection back: a socket whose close event is still to come, a timer, a
-- refresh with a continuation; or none is wanted, for `close` was called, a refresh failed or there is
-- no token.
abbrev pub is_alive : WsClient → Bool
is_alive s =
    s.manually_closed
    || (is_some s.ws
        || (is_some s.reconnect_timer || (ltb 0 s.thens || not (truthy s.access_token))))

pub record IsSound (s : WsClient) : Type 0 where
  pub bounded : OkTimer s.reconnect_timer
  pub awaited : (not (is_running s.refresh_in_flight) || ltb 0 s.thens) ≡ true
  pub alive : is_alive s ≡ true

-- The same but for the last.
pub record IsPaused (s : WsClient) : Type 0 where
  pub bounded : OkTimer s.reconnect_timer
  pub awaited : (not (is_running s.refresh_in_flight) || ltb 0 s.thens) ≡ true

schedule_reconnect-IsSound : (s : WsClient) → IsPaused s → IsSound (schedule_reconnect s)
unfolding schedule_reconnect
schedule_reconnect-IsSound s h = elim (Option-cases s.reconnect_timer) [
  | inl e ↦
      rw (e, schedule_reconnect)
        (record {
          bounded = delay_bounds s.reconnect_attempts;
          awaited = h.awaited;
          alive = ground arith;
        })
  | inr (d, e) ↦ ground (arith, e, h.bounded, h.awaited)
]

open_socket-IsSound : (b : Bool) (s : WsClient) → IsPaused s → IsSound (open_socket b s)
unfolding open_socket
open_socket-IsSound b s h = ground (arith, schedule_reconnect-IsSound s h, h.bounded, h.awaited)

pub connect-IsSound : (b : Bool) (s : WsClient) → IsPaused s → IsSound (connect b s)
unfolding connect
connect-IsSound b s h =
    let s' = record s { manually_closed = false } in
    let h' : IsPaused s' = record { bounded = h.bounded; awaited = h.awaited } in
    ground (arith, open_socket-IsSound b s' h', h.bounded, h.awaited)

after_refresh-IsSound :
    (b renewed : Bool) (s : WsClient) → IsPaused s → IsSound (after_refresh b renewed s)
unfolding after_refresh
after_refresh-IsSound b renewed s h =
    let s' = record s { reconnect_attempts = 0 } in
    let h' : IsPaused s' = record { bounded = h.bounded; awaited = h.awaited } in
    ground (arith, open_socket-IsSound b s' h', h.bounded, h.awaited)

pub paused : (s : WsClient) → IsSound s → IsPaused s
paused s h = record { bounded = h.bounded; awaited = h.awaited }

handle_token_expired-IsSound :
    (b : Bool) (r : Refresh) (s : WsClient)
    → s.refresh_in_flight ≡ r
    → IsPaused s
    → IsSound (handle_token_expired b s)
unfolding handle_token_expired
handle_token_expired-IsSound b idle s e h =
    rw (e, handle_token_expired)
      (record { bounded = h.bounded; awaited = ground arith; alive = ground arith })
handle_token_expired-IsSound b running s e h =
    rw (e, handle_token_expired)
      (record { bounded = h.bounded; awaited = ground arith; alive = ground arith })
handle_token_expired-IsSound b (settled renewed) s e h =
    rw (e, handle_token_expired) (after_refresh-IsSound b renewed s h)

pub on_close-IsSound :
    (b : Bool) (i code : ℕ) (s : WsClient) → IsPaused s → IsSound (on_close b i code s)
unfolding on_close
on_close-IsSound b i code s0 h =
    let s = record s0 { sockets = set s0.sockets i closed; ws = none; heartbeat_timer = false } in
    let p : IsPaused s = record { bounded = h.bounded; awaited = h.awaited } in
    let s' = record s { reconnect_attempts = 6 } in
    let p' : IsPaused s' = record { bounded = h.bounded; awaited = h.awaited } in
    elim (Bool-cases s0.manually_closed) [
      | inl shut ↦
          rw shut (record { bounded = h.bounded; awaited = h.awaited; alive = ground arith })
      | inr up ↦ ground (
        arith,
        up,
        handle_token_expired-IsSound b s0.refresh_in_flight s refl p,
        schedule_reconnect-IsSound s p,
        schedule_reconnect-IsSound s' p',
      )
    ]

run_thens-IsSound :
    (n : ℕ) (b renewed : Bool) (s : WsClient) → IsSound s → IsSound (run_thens n b renewed s)
run_thens-IsSound zero b renewed s h = h
run_thens-IsSound (suc n) b renewed s h =
    run_thens-IsSound n b renewed (after_refresh b renewed s)
      (after_refresh-IsSound b renewed s (paused s h))

-- The first continuation makes up for what the end of the refresh takes away.
resumed-IsSound :
    (n : ℕ) (b renewed : Bool) (s : WsClient)
    → ltb 0 n ≡ true
    → IsPaused s
    → IsSound (run_thens n b renewed s)
resumed-IsSound zero b renewed s more h = cc
resumed-IsSound (suc n) b renewed s more h =
    run_thens-IsSound n b renewed (after_refresh b renewed s) (after_refresh-IsSound b renewed s h)

pub on_refreshed-IsSound :
    (b : Bool) (tokens : Option (String × String)) (r : Refresh) (s : WsClient)
    → s.refresh_in_flight ≡ r
    → IsSound s
    → IsSound (on_refreshed b tokens s)
unfolding on_refreshed
on_refreshed-IsSound b tokens idle s e h = rw (e, on_refreshed) h
on_refreshed-IsSound b none running s e h =
    rw (e, on_refreshed)
      (resumed-IsSound s.thens b false (record s { refresh_in_flight = settled false; thens = 0 })
        (ground (arith, e, h.awaited)) (record { bounded = h.bounded; awaited = refl }))
on_refreshed-IsSound b (some (access, refresh)) running s e h =
    let s' = record s {
      refresh_in_flight = settled true;
      thens = 0;
      access_token = some access;
      refresh_token = some refresh;
    } in
    rw (e, on_refreshed)
      (resumed-IsSound s.thens b true s' (ground (arith, e, h.awaited))
        (record { bounded = h.bounded; awaited = refl }))
on_refreshed-IsSound b tokens (settled renewed) s e h = rw (e, on_refreshed) h

pub on_refresh_cleared-IsSound :
    (r : Refresh) (s : WsClient)
    → s.refresh_in_flight ≡ r
    → IsSound s
    → IsSound (on_refresh_cleared s)
unfolding on_refresh_cleared
on_refresh_cleared-IsSound idle s e h = rw (e, on_refresh_cleared) h
on_refresh_cleared-IsSound running s e h = rw (e, on_refresh_cleared) h
on_refresh_cleared-IsSound (settled renewed) s e h =
    rw (e, on_refresh_cleared) (record { bounded = h.bounded; awaited = refl; alive = h.alive })

pub on_reconnect_timer-IsSound :
    (b : Bool) (s : WsClient) → IsSound s → IsSound (on_reconnect_timer b s)
unfolding on_reconnect_timer
on_reconnect_timer-IsSound b s h =
    let s' = record s { reconnect_timer = none } in
    let p : IsPaused s' = record { bounded = tt; awaited = h.awaited } in
    elim (Bool-cases (is_some s.reconnect_timer)) [
      | inl due ↦ rw due (open_socket-IsSound b s' p)
      | inr unset ↦ rw unset h
    ]

pub on_heartbeat-IsSound : (now : ℕ) (s : WsClient) → IsSound s → IsSound (on_heartbeat now s)
unfolding on_heartbeat
on_heartbeat-IsSound now s h = ground (arith, h.bounded, h.awaited, h.alive)

pub send-IsSound : (type : String) (s : WsClient) → IsSound s → IsSound (send type s).0
unfolding send
send-IsSound type s h =
    ground (arith, schedule_reconnect-IsSound s (paused s h), h.bounded, h.awaited, h.alive)
