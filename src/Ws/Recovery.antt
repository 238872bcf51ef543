-- ===== src/Ws/Recovery.antt =====
-- How the client of client/src/ws/client.ts comes back after its socket was closed.
use mathlib.Core.Path.{subst}
use dfchat.Common.{
  ℕ, ◌+◌, String, ◌≡◌, refl, sym, ap, ◌∙◌, Bool, true, false, none, some, List, [], ◌∷◌, ◌++◌,
  arith, length, set, get_elem?, is_some, nat_eq, if◌then◌else◌, Bool-cases, inl, inr,
}
use dfchat.Ws.{
  WsClient, ReadyState, connecting, open_state, closed, idle, running, settled, close_token_expired,
  close_too_many_conns, truthy, ready_state, schedule_reconnect, open_socket, on_open, on_close,
  handle_token_expired, after_refresh, on_refreshed, on_reconnect_timer,
}
use dfchat.Ws.Step.{opened, closes, refreshed, timer, step, run}
use dfchat.Ws.Lifecycle.{length-set}

get_elem?-set_last :
    (xs : List ReadyState) (u v : ReadyState)
    → get_elem? (set (xs ++ u ∷ []) (length xs) v) (length xs) ≡ some v
get_elem?-set_last [] u v = refl
get_elem?-set_last (x ∷ xs) u v = get_elem?-set_last xs u v

-- The client has an open socket and counts its attempts anew.
pub record IsBack (s : WsClient) : Type 0 where
  pub current : ready_state s ≡ some open_state
  pub rested : s.reconnect_attempts ≡ 0
  pub wanted : s.manually_closed ≡ false

-- A socket that is made with a token and then opens.
on_open-open_socket :
    (s : WsClient) (now : ℕ)
    → truthy s.access_token ≡ true
    → s.manually_closed ≡ false
    → IsBack (on_open (length s.sockets) now (open_socket false s))
unfolding on_open open_socket
on_open-open_socket s now token up =
    let made = record s { ws = some (length s.sockets); sockets = s.sockets ++ connecting ∷ [] } in
    let becomes : open_socket false s ≡ made = ap (λ b. if b then made else s) token in
    record {
      current =
          ap (λ t. ready_state (on_open (length s.sockets) now t)) becomes
          ∙ get_elem?-set_last s.sockets connecting open_state;
      rested = refl;
      wanted = ap (λ t. t.manually_closed) becomes ∙ up;
    }

-- A refresh that one continuation waits for, ended with tokens.
on_refreshed_lem :
    (access refresh : String) (s : WsClient)
    → s.refresh_in_flight ≡ running
    → s.thens ≡ 1
    → s.manually_closed ≡ false
    → on_refreshed false (some (access, refresh)) s
      ≡ open_socket false (record s {
        refresh_in_flight = settled true;
        thens = 0;
        access_token = some access;
        refresh_token = some refresh;
        reconnect_attempts = 0;
      })
unfolding on_refreshed after_refresh
on_refreshed_lem access refresh s runs one up = rw (runs, one, up, on_refreshed, after_refresh) refl

module _ (b : Bool) (i code now : ℕ) (s : WsClient) (up : s.manually_closed ≡ false) where
  on_close_lem :
      nat_eq code close_token_expired ≡ false
      → let t = on_close b i code s in
        (is_some t.reconnect_timer ≡ true)
        × (t.access_token ≡ s.access_token)
        × (t.manually_closed ≡ false)
        × (length t.sockets ≡ length s.sockets)
  unfolding on_close schedule_reconnect
  on_close_lem other = ground (arith, up, length-set s.sockets i closed)

  by_timer :
      truthy s.access_token ≡ true
      → nat_eq code close_token_expired ≡ false
      → IsBack (run (closes b i code ∷ timer false ∷ opened (length s.sockets) now ∷ []) s)
  unfolding run step on_reconnect_timer
  by_timer token other =
      let t = on_close b i code s in
      let (due, same, wanted, long) = on_close_lem other in
      let bare = record t { reconnect_timer = none } in
      let becomes : on_reconnect_timer false t ≡ open_socket false bare =
        ap (λ o. if o then open_socket false bare else t) due in
      subst (λ w. IsBack (on_open (length s.sockets) now w)) (sym becomes)
        (subst (λ n. IsBack (on_open n now (open_socket false bare))) long
          (on_open-open_socket bare now (ap truthy same ∙ token) wanted))

  by_refresh :
      (access refresh : String)
      → truthy (some access) ≡ true
      → nat_eq code close_token_expired ≡ true
      → s.refresh_in_flight ≡ idle
      → s.thens ≡ 0
      → IsBack (
          run
            (closes b i code
              ∷ refreshed false (some (access, refresh))
              ∷ opened (length s.sockets) now
              ∷ [])
            s)
  unfolding run step on_close handle_token_expired
  by_refresh access refresh token expired still none_wait =
      let closed_one = record s {
        sockets = set s.sockets i closed;
        ws = none;
        heartbeat_timer = false;
      } in
      let waits = record closed_one { refresh_in_flight = running; thens = s.thens + 1 } in
      let expire = handle_token_expired b closed_one in
      let other =
        if nat_eq code close_too_many_conns
        then schedule_reconnect (record closed_one { reconnect_attempts = 6 })
        else schedule_reconnect closed_one in
      let shut : on_close b i code s ≡ waits =
        ap
          (λ m. if m then closed_one else if nat_eq code close_token_expired then expire else other)
          up
        ∙ ap (λ e. if e then expire else other) expired
        ∙ rw (still, handle_token_expired) refl in
      let renewed = record waits {
        refresh_in_flight = settled true;
        thens = 0;
        access_token = some access;
        refresh_token = some refresh;
        reconnect_attempts = 0;
      } in
      let becomes : on_refreshed false (some (access, refresh)) (on_close b i code s)
          ≡ open_socket false renewed =
        ap (on_refreshed false (some (access, refresh))) shut
        ∙ on_refreshed_lem access refresh waits refl (omega (arith, none_wait)) up in
      subst (λ w. IsBack (on_open (length s.sockets) now w)) (sym becomes)
        (subst (λ n. IsBack (on_open n now (open_socket false renewed)))
          (length-set s.sockets i closed) (on_open-open_socket renewed now token up))

-- A client that is not shut, has a token and neither runs a refresh nor has anything wait for one,
-- after its socket i was closed with any code: when the timer fires or, after the code for an expired
-- token, the refresh gives a token, the client makes a socket, if the constructor does not throw, and
-- once this opens it is the current one, and the attempts count from 0.
pub run_after_close :
    (b : Bool) (i code now : ℕ) (access refresh : String) (s : WsClient)
    → s.manually_closed ≡ false
    → truthy s.access_token ≡ true
    → truthy (some access) ≡ true
    → s.refresh_in_flight ≡ idle
    → s.thens ≡ 0
    → let back =
        if nat_eq code close_token_expired
        then refreshed false (some (access, refresh))
        else timer false in
      IsBack (run (closes b i code ∷ back ∷ opened (length s.sockets) now ∷ []) s)
run_after_close b i code now access refresh s up token new still none_wait =
    elim (Bool-cases (nat_eq code close_token_expired)) [
      | inl expired ↦
          rw expired (by_refresh b i code now s up access refresh new expired still none_wait)
      | inr other ↦ rw other (by_timer b i code now s up token other)
    ]
