-- ===== src/Ws/Lifecycle.antt =====
-- After `close` the client of client/src/ws/client.ts stays down until the next `connect`.
use dfchat.Common.{
  ℕ, zero, suc, ◌≡◌, refl, Bool, true, false, Option, none, some, List, [], ◌∷◌, arith, String,
  length, set,
}
use dfchat.Ws.{
  WsClient, ReadyState, closed, Refresh, idle, running, settled, close_at, on_open, on_message,
  after_refresh, on_close, run_thens, on_refreshed, on_refresh_cleared, on_reconnect_timer,
  on_heartbeat, send, on, off, add_open_handler, remove_open_handler, close,
}
use dfchat.Ws.Step.{
  Event, connects, opened, message, closes, refreshed, refresh_cleared, timer, heartbeat, sends,
  listens, unlistens, listens_open, unlistens_open, shuts, signed_out, step, run,
}

-- Down: closed by hand, with no current socket and no reconnect timer.
pub record IsDown (s : WsClient) : Type 0 where
  pub closed_by_hand : s.manually_closed ≡ true
  pub current : s.ws ≡ none
  pub timer : s.reconnect_timer ≡ none

pub length-set : (xs : List ReadyState) (i : ℕ) (v : ReadyState) → length (set xs i v) ≡ length xs
length-set [] i v = refl
length-set (x ∷ xs) zero v = refl
length-set (x ∷ xs) (suc i) v = omega (arith, length-set xs i v)

length-close_at : (i : ℕ) (xs : List ReadyState) → length (close_at i xs) ≡ length xs
length-close_at i xs = ground (arith, length-set xs i ReadyState.closing)

length-closed :
    (ws : Option ℕ) (xs : List ReadyState)
    → length (elim ws [ none ↦ xs | some i ↦ close_at i xs ]) ≡ length xs
length-closed none xs = refl
length-closed (some i) xs = length-close_at i xs

-- Down, with so many sockets made and this sent so far.
abbrev Still : ℕ → List (ℕ × String) → WsClient → Type 0
Still n out s = IsDown s × (length s.sockets ≡ n) × (s.sent ≡ out)

run_thens-Still :
    (k n : ℕ) (out : List (ℕ × String)) (b renewed : Bool) (s : WsClient)
    → Still n out s
    → Still n out (run_thens k b renewed s)
unfolding after_refresh
run_thens-Still zero n out b renewed s h = h
run_thens-Still (suc k) n out b renewed s h =
    run_thens-Still k n out b renewed (after_refresh b renewed s) (ground (arith))

abbrev pub IsNoConnect : Event → Type 0
IsNoConnect (connects b) = ⊥
IsNoConnect _ = Unit {0}

on_refreshed-Still :
    (b : Bool) (tokens : Option (String × String)) (r : Refresh) (n : ℕ) (out : List (ℕ × String))
    (s : WsClient)
    → s.refresh_in_flight ≡ r
    → Still n out s
    → Still n out (on_refreshed b tokens s)
unfolding on_refreshed
on_refreshed-Still b tokens idle n out s e h = rw (e, on_refreshed) h
on_refreshed-Still b none running n out s e (d, l, o) =
    rw (e, on_refreshed)
      (run_thens-Still s.thens n out b false
        (record s { refresh_in_flight = settled false; thens = 0 })
        (record { closed_by_hand = d.closed_by_hand; current = d.current; timer = d.timer }, l, o))
on_refreshed-Still b (some (access, refresh)) running n out s e (d, l, o) =
    let s' = record s {
      refresh_in_flight = settled true;
      thens = 0;
      access_token = some access;
      refresh_token = some refresh;
    } in
    rw (e, on_refreshed)
      (run_thens-Still s.thens n out b true s'
        (record { closed_by_hand = d.closed_by_hand; current = d.current; timer = d.timer }, l, o))
on_refreshed-Still b tokens (settled renewed) n out s e h = rw (e, on_refreshed) h

step-Still :
    (e : Event) (n : ℕ) (out : List (ℕ × String)) (s : WsClient)
    → IsNoConnect e
    → Still n out s
    → Still n out (step e s)
unfolding step on_open on_message on_close on_refresh_cleared on_reconnect_timer on_heartbeat send
    on off add_open_handler remove_open_handler close
step-Still (connects b) n out s c h = absurd c
step-Still (opened i now) n out s c h = ground (arith, length-set s.sockets i ReadyState.open_state)
step-Still (message now none) n out s c h = h
step-Still (message now (some type)) n out s c h = ground (arith)
step-Still (closes b i code) n out s c h = ground (arith, length-set s.sockets i closed)
step-Still (refreshed b tokens) n out s c h =
    on_refreshed-Still b tokens s.refresh_in_flight n out s refl h
step-Still refresh_cleared n out s c h = ground (arith)
step-Still (timer b) n out s c h = ground (arith)
step-Still (heartbeat now) n out s c h = ground (arith)
step-Still (sends type) n out s c h = ground (arith)
step-Still (listens i) n out s c h = ground (arith)
step-Still (unlistens i) n out s c h = ground (arith)
step-Still (listens_open i) n out s c h = ground (arith)
step-Still (unlistens_open i) n out s c h = ground (arith)
step-Still shuts n out s c h = ground (arith)
step-Still signed_out n out s c h = ground (arith)

abbrev pub NoConnect : List Event → Type 0
NoConnect [] = Unit {0}
NoConnect (e ∷ es) = IsNoConnect e × NoConnect es

run-Still :
    (es : List Event) (n : ℕ) (out : List (ℕ × String)) (s : WsClient)
    → NoConnect es
    → Still n out s
    → Still n out (run es s)
unfolding run
run-Still [] n out s c h = h
run-Still (e ∷ es) n out s (c, cs) h = run-Still es n out (step e s) cs (step-Still e n out s c h)

-- After `close`, in whatever state, and until the next `connect`, no event makes a socket, sends
-- anything or sets the reconnect timer: not the close of a socket that is still open, not a refresh that ends
-- only now, not a message that somebody sends.
pub run-close-IsDown :
    (es : List Event) (s : WsClient)
    → NoConnect es
    → let t = run es (close s) in
      IsDown t × (length t.sockets ≡ length s.sockets) × (t.sent ≡ s.sent)
unfolding close
run-close-IsDown es s c = run-Still es (length s.sockets) s.sent (close s) c (
  record { closed_by_hand = refl; current = refl; timer = refl },
  length-closed s.ws s.sockets,
  refl,
)
