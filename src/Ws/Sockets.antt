-- ===== src/Ws/Sockets.antt =====
-- How many sockets client/src/ws/client.ts has at a time.
use dfchat.Common.{
  ℕ, zero, suc, ◌+◌, ◌<◌, ◌≡◌, ◌≢◌, refl, Bool, true, false, not, ◌||◌, none, some, List, [], ◌∷◌,
  ◌++◌, arith, String, length, set, get_elem?, is_some, if◌then◌else◌, length-append,
}
use dfchat.Ws.{
  WsClient, ReadyState, connecting, open_state, closing, closed, schedule_reconnect, truthy,
  is_live, ready_state, close_token_expired, open_socket, connect, on_open, on_close,
  on_reconnect_timer, send, close,
}

-- `connect` makes one socket if there is none that is open or opening, no timer that will make one, a
-- token, and a constructor that does not throw, and none otherwise; a current socket that is open or
-- opening stays the current one.
pub length-connect :
    (b : Bool) (s : WsClient)
    → (length (connect b s).sockets ≡ (
        if is_live (ready_state s)
          || (is_some s.reconnect_timer || (b || not (truthy s.access_token)))
        then length s.sockets
        else length s.sockets + 1))
      × (is_live (ready_state s) ≡ true → (connect b s).ws ≡ s.ws)
unfolding connect open_socket schedule_reconnect
length-connect b s =
    (ground (arith, length-append s.sockets (connecting ∷ [])), λ live. ground arith)

get_elem?-append_left :
    (xs ys : List ReadyState) (i : ℕ) (v : ReadyState)
    → get_elem? xs i ≡ some v
    → get_elem? (xs ++ ys) i ≡ some v
get_elem?-append_left [] ys i v e = cc
get_elem?-append_left (x ∷ xs) ys zero v e = e
get_elem?-append_left (x ∷ xs) ys (suc i) v e = get_elem?-append_left xs ys i v e

get_elem?-append_last :
    (xs : List ReadyState) (v : ReadyState) → get_elem? (xs ++ v ∷ []) (length xs) ≡ some v
get_elem?-append_last [] v = refl
get_elem?-append_last (x ∷ xs) v = get_elem?-append_last xs v

get_elem?-set_self :
    (xs : List ReadyState) (i : ℕ) (u v : ReadyState)
    → get_elem? xs i ≡ some u
    → (get_elem? (set xs i v) i ≡ some v) × (length (set xs i v) ≡ length xs) × (i < length xs)
get_elem?-set_self [] i u v e = cc
get_elem?-set_self (x ∷ xs) zero u v e = (refl, refl, omega arith)
get_elem?-set_self (x ∷ xs) (suc i) u v e =
    let (at, len, below) = get_elem?-set_self xs i u v e in
    (at, omega (arith, len), omega (arith, below))

get_elem?-set_ne :
    (xs : List ReadyState) (i j : ℕ) (v : ReadyState)
    → i ≢ j
    → get_elem? (set xs i v) j ≡ get_elem? xs j
get_elem?-set_ne [] i j v h = refl
get_elem?-set_ne (x ∷ xs) zero zero v h = absurd (h refl)
get_elem?-set_ne (x ∷ xs) zero (suc j) v h = refl
get_elem?-set_ne (x ∷ xs) (suc i) zero v h = refl
get_elem?-set_ne (x ∷ xs) (suc i) (suc j) v h = get_elem?-set_ne xs i j v (omega arith)

-- Two sockets at a time: a send while the first socket is still opening sets a reconnect timer,
-- which `onopen` does not clear, so that its end makes a second socket although the first is open.
pub send_while_connecting :
    (s : WsClient) (i now : ℕ) (type : String)
    → s.ws ≡ some i
    → get_elem? s.sockets i ≡ some connecting
    → s.manually_closed ≡ false
    → truthy s.access_token ≡ true
    → let t = on_reconnect_timer false (on_open i now (send type s).0) in
      (get_elem? t.sockets i ≡ some open_state)
      × (t.ws ≡ some (length s.sockets))
      × (get_elem? t.sockets (length s.sockets) ≡ some connecting)
      × (i < length s.sockets)
unfolding send on_open on_reconnect_timer schedule_reconnect open_socket
send_while_connecting s i now type current opening up token =
    let (at, len, below) = get_elem?-set_self s.sockets i connecting open_state opening in
    let opened = set s.sockets i open_state in
    let first = get_elem?-append_left opened (connecting ∷ []) i open_state at in
    let second : get_elem? (opened ++ connecting ∷ []) (length s.sockets) ≡ some connecting =
      rw (← len) (get_elem?-append_last opened connecting) in
    ground (arith, current, opening, up, token, len, below, first, second)

-- The close event of a socket that `close` has given up, if it comes after the next `connect`, takes
-- the new socket for its own: `ws` is null and a timer runs that will make another, although the
-- socket of the `connect` is still there.
pub stale_close_event :
    (s : WsClient) (i code : ℕ)
    → s.ws ≡ some i
    → get_elem? s.sockets i ≡ some open_state
    → truthy s.access_token ≡ true
    → code ≢ close_token_expired
    → let j = length s.sockets in
      let t = on_close false i code (connect false (close s)) in
      (t.ws ≡ none)
      × (is_some t.reconnect_timer ≡ true)
      × (get_elem? t.sockets j ≡ some connecting)
      × (i < j)
unfolding close connect on_close schedule_reconnect open_socket
stale_close_event s i code current live token other =
    let (at, len, below) = get_elem?-set_self s.sockets i open_state closing live in
    let given_up = set s.sockets i closing in
    let second : get_elem? (given_up ++ connecting ∷ []) (length s.sockets) ≡ some connecting =
      rw (← len) (get_elem?-append_last given_up connecting) in
    let kept =
      get_elem?-set_ne (given_up ++ connecting ∷ []) i (length s.sockets) closed
        (omega (arith, below)) in
    ground (arith, current, live, token, len, below, second, kept)
