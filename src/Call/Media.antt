-- ===== src/Call/Media.antt =====
-- client/src/call/store.ts: the peer connection and the streams.
use dfchat.Common.{
  ℕ, String, Bool, true, false, Option, none, some, List, [], ◌∷◌, ◌++◌, map, if◌then◌else◌, any,
}
use dfchat.Call.{CallKind, audio, video, Track, MediaStream, Peer, CallStore}

abbrev pub fallback_ice_servers : List String
fallback_ice_servers = "stun:stun.l.google.com:19302" ∷ "stun:stun1.l.google.com:19302" ∷ []

-- `fetchIceServers` on the servers of the answer, `none` for a request that throws
unfoldable pub fetch_ice_servers : Option (List String) → List String
fetch_ice_servers (some (s ∷ servers)) = s ∷ servers
fetch_ice_servers _ = fallback_ice_servers

-- `getTracks()`
abbrev pub get_tracks : MediaStream → List Track
get_tracks s = s.audio_tracks ++ s.video_tracks

abbrev pub ids : List Track → List ℕ
ids ts = map (λ t. t.id) ts

abbrev pub ids_of : Option MediaStream → List ℕ
ids_of none = []
ids_of (some s) = ids (get_tracks s)

abbrev pub id_of : Option Track → List ℕ
id_of none = []
id_of (some t) = t.id ∷ []

-- `ts.forEach((t) => t.stop())`
unfoldable pub stop : List ℕ → CallStore → CallStore
stop ts c = record c { stopped = ts ++ c.stopped }

-- `teardown`
unfoldable pub teardown : CallStore → CallStore
unfolding stop
teardown c0 =
    let c =
      stop (ids_of c0.local_stream ++ ids_of c0.screen_stream ++ id_of c0.camera_video_track) c0 in
    record c {
      pc = none;
      local_stream = none;
      screen_stream = none;
      camera_video_track = none;
      remote_stream = none;
      pending_candidates = [];
    }

abbrev pub first : List Track → Option Track
first [] = none
first (t ∷ ts) = some t

-- `new RTCPeerConnection({ iceServers })`, and its senders after the addTrack calls
abbrev pub new_peer : Option (List String) → List Track → Peer
new_peer servers senders = record {
  ice_servers = fetch_ice_servers servers;
  senders = senders;
  remote_description = false;
  candidates = [];
}

-- `newPeerConnection`: the connection is made before getUserMedia is asked for the devices, and stays
-- where that throws (`none`), which is the second result.
unfoldable pub new_peer_connection :
    Option (List String) → Option MediaStream → CallKind → CallStore → CallStore × Bool
new_peer_connection servers media kind c0 =
    let fresh = new_peer servers in
    elim media [
      | none ↦ (record c0 { pc = some (fresh []) }, false)
      | some s ↦ (
        record c0 {
          pc = some (fresh (get_tracks s));
          local_stream = some s;
          camera_video_track = elim kind [
            | video ↦ first s.video_tracks
            | audio ↦ c0.camera_video_track
          ];
          remote_stream = some [];
          captured = ids (get_tracks s) ++ c0.captured;
        },
        true,
      )
    ]

-- `flushPendingCandidates`, whose failures are ignored
unfoldable pub flush_pending_candidates : CallStore → CallStore
flush_pending_candidates c = elim c.pc [
  | none ↦ c
  | some peer ↦ record c {
    pc = some (record peer { candidates = peer.candidates ++ c.pending_candidates });
    pending_candidates = [];
  }
]

-- `findVideoSender`
unfoldable pub has_video_sender : Peer → Bool
has_video_sender peer = any (λ t. t.is_video) peer.senders

-- `sender.replaceTrack(t)` for the first sender of a video track
unfoldable pub replace_track : Track → List Track → List Track
replace_track t [] = []
replace_track t (s ∷ senders) = if s.is_video then t ∷ senders else s ∷ replace_track t senders
