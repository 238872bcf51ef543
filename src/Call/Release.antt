-- ===== src/Call/Release.antt =====
-- client/src/call/store.ts: the devices are let go when a call is over.
use dfchat.Common.{ℕ, String, ◌≡◌, refl, true, false, none, some, List, [], ◌∷◌, ◌++◌, arith}
use dfchat.Call.{audio, MediaStream, idle, ended, CallStore}
use dfchat.Call.Media.{get_tracks, ids, new_peer_connection}
use dfchat.Call.Handlers.{end_call, end_quietly}
use dfchat.Call.Callbacks.{on_ice_candidate, on_invite, on_reject, on_end}
use dfchat.Call.Events.{
  Event, starts, accepts, rejects, ends, ends_quietly, mutes, switches_camera, shares_screen, track,
  ice, lost, invited, accepted, rejected, signalled, ended_by_peer, step, run, is_clean, AllClean,
}
use dfchat.Call.Devices.{
  mem, mem-append, mem-teardown, captured-teardown, is_over, IsAccounted,
  set_state-teardown-IsAccounted, start_call-IsAccounted, accept_call-IsAccounted,
  reject_call-IsAccounted, end_call-IsAccounted, toggle_mute-IsAccounted, toggle_camera-IsAccounted,
  toggle_screen_share-IsAccounted, on_track-IsAccounted, on_connection_lost-IsAccounted,
  on_invite-IsAccounted, on_accept-IsAccounted, on_signal-IsAccounted,
}

step-IsAccounted :
    (t : ℕ) (e : Event) (c : CallStore)
    → is_clean e ≡ true
    → IsAccounted t c
    → IsAccounted t (step e c)
unfolding step on_ice_candidate end_quietly on_reject on_end
step-IsAccounted t (starts p n k servers media d) c clean h =
    start_call-IsAccounted t p n k servers media d c h
step-IsAccounted t (accepts d now) c clean h = accept_call-IsAccounted t d now c h
step-IsAccounted t rejects c clean h = reject_call-IsAccounted t c h
step-IsAccounted t ends c clean h = end_call-IsAccounted t c h
step-IsAccounted t ends_quietly c clean h = set_state-teardown-IsAccounted t idle c h.0
step-IsAccounted t mutes c clean h = toggle_mute-IsAccounted t c h
step-IsAccounted t switches_camera c clean h = toggle_camera-IsAccounted t c h
step-IsAccounted t (shares_screen media replaced) c clean h =
    toggle_screen_share-IsAccounted t media replaced c clean h
step-IsAccounted t (track ts) c clean h = on_track-IsAccounted t ts c h
step-IsAccounted t (ice p) c clean h = h
step-IsAccounted t lost c clean h = on_connection_lost-IsAccounted t c h
step-IsAccounted t (invited from k sdp servers media) c clean h =
    on_invite-IsAccounted t from k sdp servers media c clean h
step-IsAccounted t (accepted sdp now) c clean h = on_accept-IsAccounted t sdp now c h
step-IsAccounted t rejected c clean h = set_state-teardown-IsAccounted t (ended "对方拒绝") c h.0
step-IsAccounted t (signalled s) c clean h = on_signal-IsAccounted t s c h
step-IsAccounted t ended_by_peer c clean h = set_state-teardown-IsAccounted t (ended "通话已结束") c h.0

run-IsAccounted :
    (t : ℕ) (es : List Event) (c : CallStore)
    → AllClean es
    → IsAccounted t c
    → IsAccounted t (run es c)
unfolding run
run-IsAccounted t [] c clean h = h
run-IsAccounted t (e ∷ es) c (clean, rest) h =
    run-IsAccounted t es (step e c) rest (step-IsAccounted t e c clean h)

-- The store at the start of the program.
abbrev pub new_store : CallStore
new_store = record {
  state = idle;
  pc = none;
  local_stream = none;
  remote_stream = none;
  camera_video_track = none;
  screen_stream = none;
  pending_candidates = [];
  captured = [];
  stopped = [];
  disabled = [];
  sent = [];
}

-- From the start of the program and over any sequence of actions, callbacks and events, each handled
-- whole before the next one comes, in which the description of every invite is taken and every shared screen has a video track that replaceTrack
-- takes: whenever the state is idle or ended, each track that a microphone, a camera or a screen has
-- given was stopped.
pub run-stopped :
    (t : ℕ) (es : List Event)
    → AllClean es
    → is_over (run es new_store).state ≡ true
    → mem t (run es new_store).captured ≡ true
    → mem t (run es new_store).stopped ≡ true
run-stopped t es clean over held =
    let (accounted, local, screen) = run-IsAccounted t es new_store clean (refl, refl, refl) in
    ground (arith, accounted, local, screen, over, held)

-- Without the first condition it fails: after an audio invite whose description is not taken and a
-- second one, the end of the call stops no track that only the first has captured.
pub run-refused_description :
    (t : ℕ) (from later : String) (one two : MediaStream)
    → mem t (ids (get_tracks one)) ≡ true
    → mem t (ids (get_tracks two)) ≡ false
    → let c =
        run
          (invited from audio (some false) none (some one)
            ∷ invited later audio (some true) none (some two)
            ∷ ends
            ∷ [])
          new_store in
      (is_over c.state ≡ true) × (mem t c.captured ≡ true) × (mem t c.stopped ≡ false)
unfolding run step on_invite new_peer_connection end_call
run-refused_description t from later one two there other =
    let c =
      step (invited later audio (some true) none (some two))
        (step (invited from audio (some false) none (some one)) new_store) in
    let seen = ids (get_tracks one) in
    (
      refl,
      rw
          (
            captured-teardown c,
            mem-append t (ids (get_tracks two)) (seen ++ []),
            mem-append t seen [],
          )
          (ground (arith, there)),
      rw (mem-teardown t c) (ground (arith, other)),
    )
