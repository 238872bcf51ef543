-- ===== src/Live/Frames.antt =====
-- What the client of client/src/ws/client.ts sends on its own: nothing but heartbeats.
use dfchat.Common.{
  ap, set, ℕ, zero, suc, String, ◌≡◌, refl, ◌∙◌, Bool, true, false, Option, none, some, List, [],
  ◌∷◌, arith, keep, ◌==◌,
}
use dfchat.Ws.{
  WsClient, closed, Refresh, idle, running, settled, schedule_reconnect, open_socket, connect,
  on_open, on_message, after_refresh, handle_token_expired, on_close, run_thens, on_refreshed,
  on_refresh_cleared, on_reconnect_timer, on_heartbeat, send, on, off, add_open_handler,
  remove_open_handler, close,
}
use dfchat.Ws.Step.{
  Event, connects, opened, message, closes, refreshed, refresh_cleared, timer, heartbeat, sends,
  listens, unlistens, listens_open, unlistens_open, shuts, signed_out, step, run,
}

-- what was sent of the type, each with its socket
abbrev pub sent_of : String → WsClient → List (ℕ × String)
sent_of type s = keep (λ p. p.1 == type) s.sent

sent-schedule_reconnect : (s : WsClient) → (schedule_reconnect s).sent ≡ s.sent
unfolding schedule_reconnect
sent-schedule_reconnect s = ground arith

sent-open_socket : (b : Bool) (s : WsClient) → (open_socket b s).sent ≡ s.sent
unfolding open_socket
sent-open_socket b s = ground (arith, sent-schedule_reconnect s)

sent-after_refresh : (b renewed : Bool) (s : WsClient) → (after_refresh b renewed s).sent ≡ s.sent
unfolding after_refresh
sent-after_refresh b renewed s =
    ground (arith, sent-open_socket b (record s { reconnect_attempts = 0 }))

sent-run_thens : (n : ℕ) (b renewed : Bool) (s : WsClient) → (run_thens n b renewed s).sent ≡ s.sent
sent-run_thens zero b renewed s = refl
sent-run_thens (suc n) b renewed s =
    sent-run_thens n b renewed (after_refresh b renewed s) ∙ sent-after_refresh b renewed s

sent-connect : (b : Bool) (s : WsClient) → (connect b s).sent ≡ s.sent
unfolding connect
sent-connect b s = ground (arith, sent-open_socket b (record s { manually_closed = false }))

sent-on_reconnect_timer : (b : Bool) (s : WsClient) → (on_reconnect_timer b s).sent ≡ s.sent
unfolding on_reconnect_timer
sent-on_reconnect_timer b s =
    ground (arith, sent-open_socket b (record s { reconnect_timer = none }))

sent-handle_token_expired : (b : Bool) (s : WsClient) → (handle_token_expired b s).sent ≡ s.sent
unfolding handle_token_expired
sent-handle_token_expired b s =
    ground (arith, sent-after_refresh b true s, sent-after_refresh b false s)

sent-on_close : (b : Bool) (i code : ℕ) (s : WsClient) → (on_close b i code s).sent ≡ s.sent
unfolding on_close
sent-on_close b i code s =
    let t = record s { sockets = set s.sockets i closed; ws = none; heartbeat_timer = false } in
    ground (
      arith,
      sent-handle_token_expired b t,
      sent-schedule_reconnect t,
      sent-schedule_reconnect (record t { reconnect_attempts = 6 }),
    )

sent-on_refreshed :
    (b : Bool) (tokens : Option (String × String)) (r : Refresh) (s : WsClient)
    → s.refresh_in_flight ≡ r
    → (on_refreshed b tokens s).sent ≡ s.sent
unfolding on_refreshed
sent-on_refreshed b tokens idle s e = rw (e, on_refreshed) refl
sent-on_refreshed b tokens (settled renewed) s e = rw (e, on_refreshed) refl
sent-on_refreshed b none running s e =
    rw (e, on_refreshed)
      (sent-run_thens s.thens b false (record s { refresh_in_flight = settled false; thens = 0 }))
sent-on_refreshed b (some (access, refresh)) running s e =
    rw (e, on_refreshed)
      (sent-run_thens s.thens b true (record s {
        refresh_in_flight = settled true;
        thens = 0;
        access_token = some access;
        refresh_token = some refresh;
      }))

sent-on_message : (now : ℕ) (o : Option String) (s : WsClient) → (on_message now o s).sent ≡ s.sent
unfolding on_message
sent-on_message now none s = refl
sent-on_message now (some type) s = ground arith

sent-on_refresh_cleared : (s : WsClient) → (on_refresh_cleared s).sent ≡ s.sent
unfolding on_refresh_cleared
sent-on_refresh_cleared s = ground arith

-- no call that sends the type
abbrev pub IsWithout : String → List Event → Type 0
IsWithout type [] = Unit {0}
IsWithout type (sends other ∷ es) = ((other == type) ≡ false) × IsWithout type es
IsWithout type (_ ∷ es) = IsWithout type es

pub sent_of-send :
    (other type : String) (s : WsClient)
    → (other == type) ≡ false
    → sent_of type (send other s).0 ≡ sent_of type s
unfolding send
sent_of-send other type s ne = ground (arith, ne, sent-schedule_reconnect s)

sent_of-on_heartbeat :
    (type : String) (now : ℕ) (s : WsClient)
    → ("ping" == type) ≡ false
    → sent_of type (on_heartbeat now s) ≡ sent_of type s
unfolding on_heartbeat
sent_of-on_heartbeat type now s ne = ground (arith, ne)

same_sent : (type : String) (s t : WsClient) → t.sent ≡ s.sent → sent_of type t ≡ sent_of type s
same_sent type s t e = ap (λ l. keep (λ p. p.1 == type) l) e

-- Whatever happens to the client, nothing of a type goes out but what calls send, and heartbeats.
pub sent_of-run :
    (type : String) (es : List Event) (s : WsClient)
    → ("ping" == type) ≡ false
    → IsWithout type es
    → sent_of type (run es s) ≡ sent_of type s
unfolding run step on_open on_message on off add_open_handler remove_open_handler close
    on_refresh_cleared
sent_of-run type [] s ne h = refl
sent_of-run type (connects b ∷ es) s ne h =
    sent_of-run type es (connect b s) ne h ∙ same_sent type s (connect b s) (sent-connect b s)
sent_of-run type (opened i now ∷ es) s ne h = sent_of-run type es (on_open i now s) ne h
sent_of-run type (message now o ∷ es) s ne h =
    sent_of-run type es (on_message now o s) ne h
    ∙ same_sent type s (on_message now o s) (sent-on_message now o s)
sent_of-run type (closes b i code ∷ es) s ne h =
    sent_of-run type es (on_close b i code s) ne h
    ∙ same_sent type s (on_close b i code s) (sent-on_close b i code s)
sent_of-run type (refreshed b tokens ∷ es) s ne h =
    sent_of-run type es (on_refreshed b tokens s) ne h
    ∙ same_sent type s (on_refreshed b tokens s)
        (sent-on_refreshed b tokens s.refresh_in_flight s refl)
sent_of-run type (refresh_cleared ∷ es) s ne h =
    sent_of-run type es (on_refresh_cleared s) ne h
    ∙ same_sent type s (on_refresh_cleared s) (sent-on_refresh_cleared s)
sent_of-run type (timer b ∷ es) s ne h =
    sent_of-run type es (on_reconnect_timer b s) ne h
    ∙ same_sent type s (on_reconnect_timer b s) (sent-on_reconnect_timer b s)
sent_of-run type (heartbeat now ∷ es) s ne h =
    sent_of-run type es (on_heartbeat now s) ne h ∙ sent_of-on_heartbeat type now s ne
sent_of-run type (sends other ∷ es) s ne (different, h) =
    sent_of-run type es (send other s).0 ne h ∙ sent_of-send other type s different
sent_of-run type (listens k ∷ es) s ne h = sent_of-run type es (on k s) ne h
sent_of-run type (unlistens k ∷ es) s ne h = sent_of-run type es (off k s) ne h
sent_of-run type (listens_open k ∷ es) s ne h = sent_of-run type es (add_open_handler k s) ne h
sent_of-run type (unlistens_open k ∷ es) s ne h = sent_of-run type es (remove_open_handler k s) ne h
sent_of-run type (shuts ∷ es) s ne h = sent_of-run type es (close s) ne h
sent_of-run type (signed_out ∷ es) s ne h =
    sent_of-run type es (record s { access_token = none; refresh_token = none }) ne h
