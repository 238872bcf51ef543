-- ===== src/Ws.antt =====
-- client/src/ws/client.ts: the WebSocket client, with its timers, the refresh of an expired token,
-- and the sockets that it has opened. A browser event is a function of the socket's number; the
-- closures of the source write `this`, whichever socket is current.
pub mod Step
pub mod Sound
pub mod Backoff
pub mod Lifecycle
pub mod Sockets
pub mod Recovery
use dfchat.Common.{
  ℕ, suc, ◌+◌, ◌*◌, ◌^◌, min, String, Bool, true, false, not, ◌&&◌, ◌||◌, Option, none, some, List,
  [], ◌∷◌, ◌++◌, map, ltb, nat_eq, if◌then◌else◌, ◌==◌, is_some, length, get_elem?, set, keep, any,
}

-- WebSocket.readyState
pub data ReadyState : Type 0 where
  connecting open_state closing closed : ReadyState

-- `refreshInFlight`: null, a promise that runs, or one that gave a token (true) or null and that the
-- zero timeout has not cleared yet
pub data Refresh : Type 0 where
  idle : Refresh
  running : Refresh
  settled : Bool → Refresh

-- `sockets` are all that were opened, `ws` the number of the current one; `thens` counts the
-- continuations that wait for the refresh; `sent` and `delivered` are what went out and what the
-- handlers were given, the latest first.
pub record WsClient : Type 0 where
  pub ws : Option ℕ
  pub sockets : List ReadyState
  pub reconnect_attempts : ℕ
  pub reconnect_timer : Option ℕ
  pub manually_closed : Bool
  pub refresh_in_flight : Refresh
  pub thens : ℕ
  pub heartbeat_timer : Bool
  pub last_pong_at : ℕ
  pub handlers : List ℕ
  pub open_handlers : List ℕ
  pub access_token : Option String
  pub refresh_token : Option String
  pub sent : List (ℕ × String)
  pub delivered : List (ℕ × String)

abbrev pub close_token_expired : ℕ
close_token_expired = 4401

abbrev pub close_too_many_conns : ℕ
close_too_many_conns = 4429

-- A token that is null or empty counts as none.
abbrev pub truthy : Option String → Bool
truthy none = false
truthy (some t) = not (t == "")

abbrev pub is_live : Option ReadyState → Bool
is_live (some connecting) = true
is_live (some open_state) = true
is_live _ = false

abbrev pub is_open_state : Option ReadyState → Bool
is_open_state (some open_state) = true
is_open_state _ = false

-- `WebSocket.close()`, which leaves a closed socket closed
abbrev pub close_at : ℕ → List ReadyState → List ReadyState
close_at i sockets = elim (get_elem? sockets i) [
  | some closed ↦ sockets
  | _ ↦ set sockets i closing
]

-- `this.ws.readyState`
abbrev pub ready_state : WsClient → Option ReadyState
ready_state s = elim s.ws [ none ↦ none | some i ↦ get_elem? s.sockets i ]

unfoldable pub schedule_reconnect : WsClient → WsClient
schedule_reconnect s = if is_some s.reconnect_timer then s else record s {
  reconnect_timer = some (min (1000 * 2 ^ s.reconnect_attempts) 30000);
  reconnect_attempts = s.reconnect_attempts + 1;
}

-- `open`, where `throws` says that the constructor of WebSocket does
unfoldable pub open_socket : Bool → WsClient → WsClient
open_socket throws s =
    if truthy s.access_token
    then (if throws
        then schedule_reconnect s
        else record s { ws = some (length s.sockets); sockets = s.sockets ++ connecting ∷ [] })
    else s

unfoldable pub connect : Bool → WsClient → WsClient
connect throws s0 =
    let s = record s0 { manually_closed = false } in
    if is_live (ready_state s) || is_some s.reconnect_timer then s else open_socket throws s

-- `onopen`, with the clearing and setting of the heartbeat timer
unfoldable pub on_open : ℕ → ℕ → WsClient → WsClient
on_open i now s = record s {
  sockets = set s.sockets i open_state;
  reconnect_attempts = 0;
  last_pong_at = now;
  heartbeat_timer = true;
  delivered = map (λ h. (h, "open")) s.open_handlers ++ s.delivered;
}

-- `onmessage` of an envelope of the type, or of a text that does not parse (`none`)
unfoldable pub on_message : ℕ → Option String → WsClient → WsClient
on_message now none s = s
on_message now (some type) s =
    if type == "pong"
    then record s { last_pong_at = now }
    else record s { delivered = map (λ h. (h, type)) s.handlers ++ s.delivered }

-- The continuation that `handleTokenExpired` hangs on the refresh, given whether a token came.
unfoldable pub after_refresh : Bool → Bool → WsClient → WsClient
after_refresh throws renewed s =
    if s.manually_closed
    then s
    else (if renewed
        then open_socket throws (record s { reconnect_attempts = 0 })
        else record s { manually_closed = true })

unfoldable pub handle_token_expired : Bool → WsClient → WsClient
handle_token_expired throws s = elim s.refresh_in_flight [
  | idle ↦ record s { refresh_in_flight = running; thens = s.thens + 1 }
  | running ↦ record s { thens = s.thens + 1 }
  | settled renewed ↦ after_refresh throws renewed s
]

-- `onclose`, after the browser has closed the socket
unfoldable pub on_close : Bool → ℕ → ℕ → WsClient → WsClient
on_close throws i code s0 =
    let s = record s0 { sockets = set s0.sockets i closed; ws = none; heartbeat_timer = false } in
    if s.manually_closed
    then s
    else (if nat_eq code close_token_expired
        then handle_token_expired throws s
        else (if nat_eq code close_too_many_conns
            then schedule_reconnect (record s { reconnect_attempts = 6 })
            else schedule_reconnect s))

abbrev pub run_thens : ℕ → Bool → Bool → WsClient → WsClient
run_thens ℕ.zero throws renewed s = s
run_thens (suc n) throws renewed s = run_thens n throws renewed (after_refresh throws renewed s)

-- The refresh that runs ends, with the two tokens of the answer or without; its continuations run.
unfoldable pub on_refreshed : Bool → Option (String × String) → WsClient → WsClient
on_refreshed throws tokens s = elim s.refresh_in_flight [
  | running ↦ elim tokens [
    | none ↦
        run_thens s.thens throws false (record s { refresh_in_flight = settled false; thens = 0 })
    | some (access, refresh) ↦ run_thens s.thens throws true (record s {
      refresh_in_flight = settled true;
      thens = 0;
      access_token = some access;
      refresh_token = some refresh;
    })
  ]
  | _ ↦ s
]

-- The zero timeout of `finally`, after a refresh.
unfoldable pub on_refresh_cleared : WsClient → WsClient
on_refresh_cleared s = elim s.refresh_in_flight [
  | settled renewed ↦ record s { refresh_in_flight = idle }
  | _ ↦ s
]

-- `setTimeout` of `scheduleReconnect` fires.
unfoldable pub on_reconnect_timer : Bool → WsClient → WsClient
on_reconnect_timer throws s =
    if is_some s.reconnect_timer
    then open_socket throws (record s { reconnect_timer = none })
    else s

-- The interval of `startHeartbeat`.
unfoldable pub on_heartbeat : ℕ → WsClient → WsClient
on_heartbeat now s = elim s.ws [
  | none ↦ s
  | some i ↦
      if not (s.heartbeat_timer && is_open_state (get_elem? s.sockets i))
      then s
      else (if not (nat_eq s.last_pong_at 0) && ltb (s.last_pong_at + 50000) now
          then record s { sockets = close_at i s.sockets }
          else record s { sent = (i, "ping") ∷ s.sent })
]

unfoldable pub send : String → WsClient → WsClient × Bool
send type s = elim s.ws [
  | none ↦
      (if not s.manually_closed && truthy s.access_token then schedule_reconnect s else s, false)
  | some i ↦
      if is_open_state (get_elem? s.sockets i)
      then (record s { sent = (i, type) ∷ s.sent }, true)
      else (
        if not s.manually_closed && truthy s.access_token then schedule_reconnect s else s,
        false,
      )
]

-- `Set.add`, which keeps the order of the first additions
abbrev pub added : ℕ → List ℕ → List ℕ
added h hs = if any (nat_eq h) hs then hs else hs ++ h ∷ []

unfoldable pub on : ℕ → WsClient → WsClient
on h s = record s { handlers = added h s.handlers }

unfoldable pub off : ℕ → WsClient → WsClient
off h s = record s { handlers = keep (λ x. not (nat_eq x h)) s.handlers }

unfoldable pub add_open_handler : ℕ → WsClient → WsClient
add_open_handler h s = record s { open_handlers = added h s.open_handlers }

unfoldable pub remove_open_handler : ℕ → WsClient → WsClient
remove_open_handler h s = record s { open_handlers = keep (λ x. not (nat_eq x h)) s.open_handlers }

unfoldable pub close : WsClient → WsClient
close s = record s {
  manually_closed = true;
  heartbeat_timer = false;
  reconnect_timer = none;
  ws = none;
  sockets = elim s.ws [ none ↦ s.sockets | some i ↦ close_at i s.sockets ];
  handlers = [];
  open_handlers = [];
}
