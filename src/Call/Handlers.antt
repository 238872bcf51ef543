-- ===== src/Call/Handlers.antt =====
-- client/src/call/store.ts: the store's actions.
use dfchat.Common.{
  ℕ, String, Bool, true, false, not, ◌&&◌, Option, none, some, List, [], ◌∷◌, ◌++◌, nat_eq,
  if◌then◌else◌, any, keep, is_some,
}
use dfchat.Call.{
  CallKind, audio, video, Track, MediaStream, Conversation, CallState, idle, inviting, incoming,
  connected, ended, Peer, CallStore,
}
use dfchat.Call.Media.{
  get_tracks, ids, ids_of, stop, teardown, new_peer_connection, flush_pending_candidates,
  has_video_sender, replace_track,
}

abbrev pub send : String → String → CallStore → CallStore
send type to c = record c { sent = (type, to) ∷ c.sent }

abbrev pub set_state : CallState → CallStore → CallStore
set_state s c = record c { state = s }

abbrev pub in_call : String → String → CallKind → ℕ → CallStore → CallStore
in_call peer_id peer_name kind now c =
    set_state
      (connected (record {
        peer_id = peer_id;
        peer_name = peer_name;
        kind = kind;
        muted = false;
        camera_off = false;
        screen_sharing = false;
        local_stream = c.local_stream;
        remote_stream = c.remote_stream;
        started_at = now;
      }))
      c

-- `startCall`, where `described` says that the offer was made and set
unfoldable pub start_call :
    (peer_id peer_name : String)
    → CallKind
    → Option (List String)
    → Option MediaStream
    → (described : Bool) → CallStore
    → CallStore
start_call peer_id peer_name kind servers media described c =
    let asked =
      new_peer_connection servers media kind
        (set_state (inviting peer_id peer_name kind) (teardown c)) in
    if asked.1 && described
    then send "call.invite" peer_id asked.0
    else set_state (ended "无法启动通话（设备权限？）") (teardown asked.0)

-- `acceptCall`, where `described` says that the answer was made and set
unfoldable pub accept_call : (described : Bool) → (now : ℕ) → CallStore → CallStore
accept_call described now c = elim c.state [
  | incoming peer_id peer_name kind ↦
      let flushed = flush_pending_candidates c in
      if is_some c.pc && described
      then in_call peer_id peer_name kind now (send "call.accept" peer_id flushed)
      else set_state (ended "应答失败") (teardown flushed)
  | _ ↦ c
]

abbrev pub sent_reject : CallStore → CallStore
sent_reject c = elim c.state [
  | incoming peer_id peer_name kind ↦ send "call.reject" peer_id c
  | _ ↦ c
]

unfoldable pub reject_call : CallStore → CallStore
reject_call c = set_state idle (teardown (sent_reject c))

abbrev pub sent_end : CallStore → CallStore
sent_end c = elim c.state [
  | connected s ↦ send "call.end" s.peer_id c
  | inviting peer_id peer_name kind ↦ send "call.end" peer_id c
  | _ ↦ c
]

unfoldable pub end_call : CallStore → CallStore
end_call c = set_state idle (teardown (sent_end c))

-- `end`
unfoldable pub end_quietly : CallStore → CallStore
end_quietly c = set_state idle (teardown c)

-- `t.enabled = on` for each
unfoldable pub enable : Bool → List ℕ → CallStore → CallStore
enable on ts c =
    let rest = keep (λ t. not (any (nat_eq t) ts)) c.disabled in
    record c { disabled = if on then rest else ts ++ rest }

unfoldable pub toggle_mute : CallStore → CallStore
toggle_mute c = elim c.state [
  | connected s ↦ elim c.local_stream [
    | none ↦ c
    | some stream ↦
        set_state (connected (record s { muted = not s.muted }))
          (enable s.muted (ids stream.audio_tracks) c)
  ]
  | _ ↦ c
]

-- The branch of `toggleCamera` for the video tracks of the local stream.
abbrev toggled_camera : Conversation → List Track → CallStore → CallStore
toggled_camera s [] c = c
toggled_camera s (t ∷ ts) c =
    let on = any (nat_eq t.id) c.disabled in
    set_state (connected (record s { camera_off = not on })) (enable on (t.id ∷ []) c)

unfoldable pub toggle_camera : CallStore → CallStore
toggle_camera c = elim c.state [
  | connected s ↦ elim s.kind [
    | video ↦ elim c.local_stream [
      | none ↦ c
      | some stream ↦ toggled_camera s stream.video_tracks c
    ]
    | audio ↦ c
  ]
  | _ ↦ c
]

-- The start of a share, with the stream that getDisplayMedia gives and whether replaceTrack succeeds.
unfoldable pub start_share : Conversation → Peer → Option MediaStream → Bool → CallStore → CallStore
start_share s peer none replaced c = c
start_share s peer (some stream) replaced c0 =
    let c = record c0 {
      screen_stream = some stream;
      captured = ids (get_tracks stream) ++ c0.captured;
    } in
    elim stream.video_tracks [
      | [] ↦ c
      | t ∷ ts ↦
          if replaced
          then set_state (connected (record s { screen_sharing = true }))
              (record c { pc = some (record peer { senders = replace_track t peer.senders }) })
          else c
    ]

-- Its end. Where replaceTrack throws, the flag stays set.
unfoldable pub stop_share : Conversation → Peer → Bool → CallStore → CallStore
stop_share s peer replaced c0 =
    let c = record (stop (ids_of c0.screen_stream) c0) { screen_stream = none } in
    let done = set_state (connected (record s { screen_sharing = false })) in
    elim c0.camera_video_track [
      | none ↦ done c
      | some t ↦
          if replaced
          then done
              (record c { pc = some (record peer { senders = replace_track t peer.senders }) })
          else c
    ]

unfoldable pub toggle_screen_share : Option MediaStream → Bool → CallStore → CallStore
toggle_screen_share media replaced c = elim c.state [
  | connected s ↦ elim c.pc [
    | none ↦ c
    | some peer ↦
        if has_video_sender peer
        then (if s.screen_sharing
            then stop_share s peer replaced c
            else start_share s peer media replaced c)
        else c
  ]
  | _ ↦ c
]
