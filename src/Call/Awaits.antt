-- ===== src/Call/Awaits.antt =====
-- client/src/call/store.ts: `startCall`, `newPeerConnection` and the events 'call.invite' and
-- 'call.accept' cut at their awaits. Each piece runs on the store as it finds it, which other
-- handlers may have changed since the piece before; the second result says whether it goes on.
use dfchat.Common.{
  String, Bool, true, false, ◌&&◌, Option, none, some, List, [], ◌∷◌, ◌++◌, if◌then◌else◌, is_some,
  ℕ,
}
use dfchat.Call.{
  CallKind, audio, video, MediaStream, CallState, idle, inviting, incoming, connected, ended,
  CallStore,
}
use dfchat.Call.Media.{get_tracks, ids, first, new_peer, teardown}
use dfchat.Call.Handlers.{send, set_state, in_call}
use dfchat.Call.Callbacks.{described_peer, Description}

-- `newPeerConnection` from the answer of `fetchIceServers` to the question for the devices
unfoldable pub servers_came : Option (List String) → CallStore → CallStore
servers_came servers c = record c { pc = some (new_peer servers []) }

-- The first track of a video call is kept, and the remote stream is made.
abbrev pub equipped : CallKind → MediaStream → CallStore → CallStore
equipped kind s c = record c {
  camera_video_track = elim kind [ video ↦ first s.video_tracks | audio ↦ c.camera_video_track ];
  remote_stream = some [];
}

-- `newPeerConnection` from the answer of getUserMedia to the end. The stream is stored before its
-- tracks are added to the connection of the moment, which throws when there is none.
unfoldable pub media_came : Option MediaStream → CallKind → CallStore → CallStore × Bool
media_came none kind c = (c, false)
media_came (some s) kind c0 =
    let c = record c0 { local_stream = some s; captured = ids (get_tracks s) ++ c0.captured } in
    elim c0.pc [
      | none ↦ elim (get_tracks s) [ [] ↦ (equipped kind s c, false) | t ∷ ts ↦ (c, false) ]
      | some peer ↦ (
        equipped kind s
            (record c { pc = some (record peer { senders = peer.senders ++ get_tracks s }) }),
        true,
      )
    ]

-- `startCall` up to the first await
unfoldable pub begin_call : (peer_id peer_name : String) → CallKind → CallStore → CallStore
begin_call peer_id peer_name kind c = set_state (inviting peer_id peer_name kind) (teardown c)

-- its catch block
abbrev pub give_up : CallStore → CallStore
give_up c = set_state (ended "无法启动通话（设备权限？）") (teardown c)

unfoldable pub or_give_up : CallStore × Bool → CallStore × Bool
or_give_up (c, true) = (c, true)
or_give_up (c, false) = (give_up c, false)

-- `startCall` from the description of the offer to the end, on the connection of the moment
unfoldable pub send_invite : (peer_id : String) → (described : Bool) → CallStore → CallStore
send_invite peer_id described c =
    if is_some c.pc && described then send "call.invite" peer_id c else give_up c

-- 'call.invite': the guard; an invite that goes on waits for `fetchIceServers`
unfoldable pub admit_invite : (from : String) → CallStore → CallStore × Bool
admit_invite from c = elim c.state [ idle ↦ (c, true) | _ ↦ (send "call.reject" from c, false) ]

-- from the devices to the description of the peer, which is set on the connection of the moment
unfoldable pub describe_invite : Description → CallStore → CallStore × Bool
describe_invite none c = (c, true)
describe_invite (some taken) c = elim c.pc [
  | none ↦ (c, false)
  | some peer ↦ if taken then (described_peer c, true) else (c, false)
]

-- after the description
unfoldable pub ring : (from : String) → CallKind → CallStore → CallStore
ring from kind c = set_state (incoming from from kind) c

-- 'call.accept': the guard, and the description on the connection
unfoldable pub describe_accept : Description → CallStore → CallStore × Bool
describe_accept sdp c = elim c.pc [
  | none ↦ (c, false)
  | some peer ↦ elim sdp [ some true ↦ (described_peer c, true) | _ ↦ (c, false) ]
]

-- after the candidates, on a connection that was not closed meanwhile: the state was read before the
-- first await
unfoldable pub connect_call : (read : CallState) → (now : ℕ) → CallStore → CallStore
connect_call (inviting peer_id peer_name kind) now c = in_call peer_id peer_name kind now c
connect_call idle now c = c
connect_call (incoming peer_id peer_name kind) now c = c
connect_call (connected s) now c = c
connect_call (ended reason) now c = c

-- `acceptCall` from the description of the answer to the end, where the state was read before the
-- first await. `described` says that it was made and set.
unfoldable pub send_answer :
    (read : CallState) → (described : Bool) → (now : ℕ) → CallStore → CallStore
send_answer (incoming peer_id peer_name kind) described now c =
    if is_some c.pc && described
    then in_call peer_id peer_name kind now (send "call.accept" peer_id c)
    else set_state (ended "应答失败") (teardown c)
send_answer idle described now c = c
send_answer (inviting peer_id peer_name kind) described now c = c
send_answer (connected s) described now c = c
send_answer (ended reason) described now c = c

-- A piece is followed by the next one where it goes on.
unfoldable pub then_go : CallStore × Bool → (CallStore → CallStore) → CallStore
then_go (c, true) f = f c
then_go (c, false) f = c
