-- ===== src/Call/Uncut.antt =====
-- client/src/call/store.ts: the handlers that run whole are their pieces one after the other, and
-- where events between two pieces lead to.
use dfchat.Common.{ℕ, String, Bool, true, false, ◌≡◌, refl, Option, none, some, List, arith}
use dfchat.Call.{
  CallKind, MediaStream, CallState, idle, inviting, incoming, connected, ended, CallStore,
}
use dfchat.Call.Media.{new_peer_connection, flush_pending_candidates}
use dfchat.Call.Handlers.{start_call, accept_call}
use dfchat.Call.Callbacks.{on_invite, on_accept, Description}
use dfchat.Call.Events.{Event, run}
use dfchat.Call.Awaits.{
  servers_came, media_came, begin_call, or_give_up, send_invite, admit_invite, describe_invite,
  ring, describe_accept, connect_call, send_answer, then_go,
}

-- The pieces of each handler with nothing in between.
abbrev start_in_pieces :
    (peer_id peer_name : String)
    → CallKind
    → Option (List String)
    → Option MediaStream
    → (described : Bool) → CallStore
    → CallStore
start_in_pieces peer_id peer_name kind servers media described c =
    then_go
      (or_give_up
        (media_came media kind (servers_came servers (begin_call peer_id peer_name kind c))))
      (send_invite peer_id described)

abbrev invite_in_pieces :
    (from : String)
    → CallKind
    → Description
    → Option (List String)
    → Option MediaStream
    → CallStore
    → CallStore
invite_in_pieces from kind sdp servers media c = then_go (admit_invite from c) (λ d.
    then_go (media_came media kind (servers_came servers d))
      (λ e. then_go (describe_invite sdp e) (ring from kind)))

abbrev accept_in_pieces : Description → (now : ℕ) → CallStore → CallStore
accept_in_pieces sdp now c =
    then_go (describe_accept sdp c) (λ d. connect_call c.state now (flush_pending_candidates d))

start_call-uncut :
    (peer_id peer_name : String) (kind : CallKind) (servers : Option (List String))
    (media : Option MediaStream) (described : Bool) (c : CallStore)
    → start_call peer_id peer_name kind servers media described c
      ≡ start_in_pieces peer_id peer_name kind servers media described c
unfolding start_call new_peer_connection then_go media_came servers_came or_give_up begin_call
    send_invite
start_call-uncut p n k servers none d c = refl
start_call-uncut p n k servers (some s) d c = refl

on_invite-uncut :
    (from : String) (kind : CallKind) (sdp : Description) (servers : Option (List String))
    (media : Option MediaStream) (c : CallStore)
    → on_invite from kind sdp servers media c ≡ invite_in_pieces from kind sdp servers media c
unfolding on_invite new_peer_connection then_go media_came servers_came admit_invite describe_invite
    ring
on_invite-uncut from k sdp servers media c = ground arith

on_accept-uncut :
    (sdp : Description) (now : ℕ) (c : CallStore) → on_accept sdp now c ≡ accept_in_pieces sdp now c
unfolding on_accept then_go describe_accept connect_call flush_pending_candidates
on_accept-uncut sdp now c = ground arith

unfoldable is_incoming : CallState → Bool
is_incoming (incoming peer_id peer_name kind) = true
is_incoming idle = false
is_incoming (inviting peer_id peer_name kind) = false
is_incoming (connected s) = false
is_incoming (ended reason) = false

accept_call-uncut :
    (described : Bool) (now : ℕ) (c : CallStore)
    → is_incoming c.state ≡ true
    → accept_call described now c ≡ send_answer c.state described now (flush_pending_candidates c)
unfolding accept_call send_answer flush_pending_candidates is_incoming
accept_call-uncut d now c h = ground arith

-- `startCall` when there are events during `fetchIceServers` and everything after that succeeds
abbrev pub start_through :
    (peer_id peer_name : String)
    → CallKind
    → Option (List String)
    → MediaStream
    → List Event
    → CallStore
    → CallStore
start_through peer_id peer_name kind servers s es c =
    then_go
      (or_give_up (
        media_came (some s) kind
          (servers_came servers (run es (begin_call peer_id peer_name kind c)))))
      (send_invite peer_id true)

-- 'call.invite' when there are events during `fetchIceServers` and everything after that succeeds
abbrev pub ring_through :
    (from : String)
    → CallKind
    → Option (List String)
    → MediaStream
    → List Event
    → CallStore
    → CallStore
ring_through from kind servers s es c = then_go (admit_invite from c) (λ d.
    then_go (media_came (some s) kind (servers_came servers (run es d)))
      (λ e. then_go (describe_invite (some true) e) (ring from kind)))
