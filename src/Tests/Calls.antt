-- ===== src/Tests/Calls.antt =====
-- A call that is started, taken and ended.
use dfchat.Common.{ℕ, ◌≡◌, refl, true, false, none, some, List, [], ◌∷◌}
use dfchat.Call.{audio, video, MediaStream, idle}
use dfchat.Call.Media.{
  new_peer_connection, teardown, stop, flush_pending_candidates, has_video_sender, replace_track,
}
use dfchat.Call.Handlers.{start_call, toggle_screen_share, start_share, end_call}
use dfchat.Call.Callbacks.{on_accept}
use dfchat.Call.Events.{step, Event, starts, accepted, shares_screen, ends, run}
use dfchat.Call.Devices.{mem}
use dfchat.Call.Uncut
use dfchat.Call.Uncut.{start_through}
use dfchat.Call.Awaits.{begin_call, then_go, or_give_up, media_came, servers_came, send_invite}
use dfchat.Call.Release.{new_store}

abbrev microphone : ℕ → MediaStream
microphone id = record {
  audio_tracks = record { id = id; is_video = false } ∷ [];
  video_tracks = [];
}

abbrev screen : MediaStream
screen = record { audio_tracks = []; video_tracks = record { id = 9; is_video = true } ∷ [] }

abbrev with_camera : MediaStream
with_camera = record (microphone 1) { video_tracks = record { id = 2; is_video = true } ∷ [] }

abbrev a_call : List Event
a_call =
    starts "7" "Ann" video none (some with_camera) true
    ∷ accepted (some true) 100
    ∷ shares_screen (some screen) true
    ∷ ends
    ∷ []

stopped_screen : mem 9 (run a_call new_store).stopped ≡ true
unfolding run step start_call new_peer_connection teardown stop on_accept flush_pending_candidates
    toggle_screen_share has_video_sender start_share replace_track end_call
stopped_screen = refl

-- the caller hangs up: the call is over, and the peer is invited after its end
hung_up :
    let started = start_through "7" "Ann" audio none (microphone 1) (ends ∷ []) new_store in
    (started.state ≡ idle) × (started.sent ≡ ("call.invite", "7") ∷ ("call.end", "7") ∷ [])
unfolding run step begin_call end_call teardown stop then_go or_give_up media_came servers_came
    send_invite
hung_up = (refl, refl)
