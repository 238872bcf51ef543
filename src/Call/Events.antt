-- ===== src/Call/Events.antt =====
-- client/src/call/store.ts: the calls and events of a call as steps of its state.
use dfchat.Common.{ℕ, String, ◌≡◌, Bool, true, false, ◌&&◌, Option, some, List, [], ◌∷◌, is_some}
use dfchat.Call.{CallKind, Track, MediaStream, CallStore}
use dfchat.Call.Media.{first}
use dfchat.Call.Handlers.{
  start_call, accept_call, reject_call, end_call, end_quietly, toggle_mute, toggle_camera,
  toggle_screen_share,
}
use dfchat.Call.Callbacks.{
  Description, on_track, on_ice_candidate, on_connection_lost, on_invite, on_accept, on_reject,
  on_signal, on_end,
}

-- An action of the user, a callback of the browser, or an event of the server, with what its awaits
-- give.
pub data Event : Type 0 where
  starts :
      (peer_id peer_name : String)
      → CallKind
      → Option (List String)
      → Option MediaStream
      → Bool
      → Event
  accepts : Bool → ℕ → Event
  rejects ends ends_quietly mutes switches_camera : Event
  shares_screen : Option MediaStream → Bool → Event
  track : List Track → Event
  ice : String → Event
  lost : Event
  invited :
      (from : String) → CallKind → Description → Option (List String) → Option MediaStream → Event
  accepted : Description → ℕ → Event
  rejected : Event
  signalled : String → Event
  ended_by_peer : Event

unfoldable pub step : Event → CallStore → CallStore
step (starts p n k servers media d) c = start_call p n k servers media d c
step (accepts d now) c = accept_call d now c
step rejects c = reject_call c
step ends c = end_call c
step ends_quietly c = end_quietly c
step mutes c = toggle_mute c
step switches_camera c = toggle_camera c
step (shares_screen media replaced) c = toggle_screen_share media replaced c
step (track ts) c = on_track ts c
step (ice p) c = on_ice_candidate p c
step lost c = on_connection_lost c
step (invited from k sdp servers media) c = on_invite from k sdp servers media c
step (accepted sdp now) c = on_accept sdp now c
step rejected c = on_reject c
step (signalled s) c = on_signal s c
step ended_by_peer c = on_end c

unfoldable pub run : List Event → CallStore → CallStore
run [] c = c
run (e ∷ es) c = run es (step e c)

-- The description of an invite is taken, and a screen that is given has a video track, which
-- replaceTrack takes.
abbrev pub is_clean : Event → Bool
is_clean (invited from k (some false) servers media) = false
is_clean (shares_screen (some s) replaced) = is_some (first s.video_tracks) && replaced
is_clean _ = true

abbrev pub AllClean : List Event → Type 0
AllClean [] = Unit {0}
AllClean (e ∷ es) = (is_clean e ≡ true) × AllClean es
