-- ===== src/Call/Devices.antt =====
-- client/src/call/store.ts: which devices are in use after a step.
use dfchat.Common.{
  ℕ, String, ◌≡◌, refl, Bool, true, false, not, ◌&&◌, ◌||◌, Option, none, some, List, [], ◌∷◌, ◌++◌,
  arith, nat_eq, any, is_some, Bool-cases, Option-cases, inl, inr,
}
use dfchat.Call.{
  CallKind, Track, MediaStream, CallState, idle, inviting, connected, ended, CallStore,
}
use dfchat.Call.Media.{
  get_tracks, ids, ids_of, id_of, stop, teardown, new_peer_connection, flush_pending_candidates,
}
use dfchat.Call.Handlers.{
  set_state, sent_end, sent_reject, start_call, accept_call, reject_call, end_call, enable,
  toggle_mute, toggle_camera, start_share, stop_share, toggle_screen_share,
}
use dfchat.Call.Callbacks.{
  Description, on_track, on_connection_lost, on_invite, on_accept, on_signal,
}
use dfchat.Call.Events.{is_clean, invited, shares_screen}

abbrev pub mem : ℕ → List ℕ → Bool
mem t ts = any (nat_eq t) ts

abbrev pub is_over : CallState → Bool
is_over idle = true
is_over (ended reason) = true
is_over _ = false

abbrev pub is_sharing : CallState → Bool
is_sharing (connected s) = s.screen_sharing
is_sharing _ = false

-- A captured track was stopped or belongs to the local stream or to the screen.
abbrev pub IsHeld : ℕ → CallStore → Type 0
IsHeld t c =
    (not (mem t c.captured)
      || (mem t c.stopped || (mem t (ids_of c.local_stream) || mem t (ids_of c.screen_stream))))
    ≡ true

-- And there is no local stream without a call, and no screen unless it is shared.
abbrev pub IsAccounted : ℕ → CallStore → Type 0
IsAccounted t c =
    IsHeld t c
    × ((not (is_over c.state) || not (is_some c.local_stream)) ≡ true)
    × ((is_sharing c.state || not (is_some c.screen_stream)) ≡ true)

pub mem-append : (t : ℕ) (xs ys : List ℕ) → mem t (xs ++ ys) ≡ (mem t xs || mem t ys)
mem-append t [] ys = refl
mem-append t (x ∷ xs) ys = ground (arith, mem-append t xs ys)

-- Nothing captured is left running, and no stream is held.
abbrev pub IsFree : ℕ → CallStore → Type 0
IsFree t c =
    ((not (mem t c.captured) || mem t c.stopped) ≡ true)
    × (c.local_stream ≡ none)
    × (c.screen_stream ≡ none)

pub mem-teardown :
    (t : ℕ) (c : CallStore)
    → mem t (teardown c).stopped ≡ (
        ((mem t (ids_of c.local_stream) || mem t (ids_of c.screen_stream))
          || mem t (id_of c.camera_video_track))
        || mem t c.stopped)
unfolding teardown stop
mem-teardown t c =
    rw
      (
        mem-append t (ids_of c.local_stream ++ ids_of c.screen_stream ++ id_of c.camera_video_track)
            c.stopped,
        mem-append t (ids_of c.local_stream ++ ids_of c.screen_stream) (id_of c.camera_video_track),
        mem-append t (ids_of c.local_stream) (ids_of c.screen_stream),
      )
      refl

pub captured-teardown : (c : CallStore) → (teardown c).captured ≡ c.captured
unfolding teardown stop
captured-teardown c = refl

local_stream-teardown : (c : CallStore) → (teardown c).local_stream ≡ none
unfolding teardown stop
local_stream-teardown c = refl

screen_stream-teardown : (c : CallStore) → (teardown c).screen_stream ≡ none
unfolding teardown stop
screen_stream-teardown c = refl

teardown-IsFree : (t : ℕ) (c : CallStore) → IsHeld t c → IsFree t (teardown c)
teardown-IsFree t c h = (
  rw (mem-teardown t c, captured-teardown c) (ground (arith, h)),
  local_stream-teardown c,
  screen_stream-teardown c,
)

-- After a teardown any state but a shared screen will do.
pub free-IsAccounted : (t : ℕ) (c : CallStore) → IsFree t c → IsAccounted t c
free-IsAccounted t c (gone, local, screen) =
    rw (local, screen) (ground (arith, gone), ground arith, ground arith)

pub set_state-teardown-IsAccounted :
    (t : ℕ) (s : CallState) (c : CallStore) → IsHeld t c → IsAccounted t (set_state s (teardown c))
set_state-teardown-IsAccounted t s c h =
    free-IsAccounted t (set_state s (teardown c)) (teardown-IsFree t c h)

pub new_peer_connection-IsAccounted :
    (t : ℕ) (servers : Option (List String)) (media : Option MediaStream) (k : CallKind)
    (c : CallStore)
    → IsFree t c
    → is_over c.state ≡ false
    → IsAccounted t (new_peer_connection servers media k c).0
unfolding new_peer_connection
new_peer_connection-IsAccounted t servers none k c f over = free-IsAccounted t c f
new_peer_connection-IsAccounted t servers (some s) k c (gone, local, screen) over =
    rw (mem-append t (ids (get_tracks s)) c.captured, screen)
      (ground (arith, gone), ground (arith, over), ground arith)

pub start_call-IsAccounted :
    (t : ℕ) (p n : String) (k : CallKind) (servers : Option (List String))
    (media : Option MediaStream) (d : Bool) (c : CallStore)
    → IsAccounted t c
    → IsAccounted t (start_call p n k servers media d c)
unfolding start_call
start_call-IsAccounted t p n k servers media d c h =
    let begun = record (teardown c) { state = inviting p n k } in
    let asked = new_peer_connection servers media k begun in
    let ok =
      new_peer_connection-IsAccounted t servers media k begun (teardown-IsFree t c h.0) refl in
    elim (Bool-cases (asked.1 && d)) [
      | inl asked_for ↦ rw asked_for ok
      | inr failed ↦
          rw failed (set_state-teardown-IsAccounted t (ended "无法启动通话（设备权限？）") asked.0 ok.0)
    ]

pub accept_call-IsAccounted :
    (t : ℕ) (d : Bool) (now : ℕ) (c : CallStore)
    → IsAccounted t c
    → IsAccounted t (accept_call d now c)
unfolding accept_call flush_pending_candidates
accept_call-IsAccounted t d now c h =
    let flushed = flush_pending_candidates c in
    let held : IsHeld t flushed = ground (arith, h.0) in
    let torn = set_state-teardown-IsAccounted t (ended "应答失败") flushed held in
    ground (arith, h.0, h.1, h.2, held, torn.0, torn.1, torn.2)

pub reject_call-IsAccounted :
    (t : ℕ) (c : CallStore) → IsAccounted t c → IsAccounted t (reject_call c)
unfolding reject_call
reject_call-IsAccounted t c h =
    set_state-teardown-IsAccounted t idle (sent_reject c) (ground (arith, h.0))

pub end_call-IsAccounted : (t : ℕ) (c : CallStore) → IsAccounted t c → IsAccounted t (end_call c)
unfolding end_call
end_call-IsAccounted t c h =
    set_state-teardown-IsAccounted t idle (sent_end c) (ground (arith, h.0))

pub toggle_mute-IsAccounted :
    (t : ℕ) (c : CallStore) → IsAccounted t c → IsAccounted t (toggle_mute c)
unfolding toggle_mute enable
toggle_mute-IsAccounted t c h = ground arith

pub toggle_camera-IsAccounted :
    (t : ℕ) (c : CallStore) → IsAccounted t c → IsAccounted t (toggle_camera c)
unfolding toggle_camera enable
toggle_camera-IsAccounted t c h = ground arith

pub toggle_screen_share-IsAccounted :
    (t : ℕ) (media : Option MediaStream) (replaced : Bool) (c : CallStore)
    → is_clean (shares_screen media replaced) ≡ true
    → IsAccounted t c
    → IsAccounted t (toggle_screen_share media replaced c)
unfolding toggle_screen_share start_share stop_share stop
toggle_screen_share-IsAccounted t media replaced c clean h = ground (
  arith,
  h.0,
  h.1,
  h.2,
  mem-append t (ids_of c.screen_stream) c.stopped,
  mem-append t (ids_of media) c.captured,
)

pub on_track-IsAccounted :
    (t : ℕ) (ts : List Track) (c : CallStore) → IsAccounted t c → IsAccounted t (on_track ts c)
unfolding on_track
on_track-IsAccounted t ts c h = ground arith

pub on_connection_lost-IsAccounted :
    (t : ℕ) (c : CallStore) → IsAccounted t c → IsAccounted t (on_connection_lost c)
unfolding on_connection_lost
on_connection_lost-IsAccounted t c h =
    let lost = set_state (ended "连接断开") c in
    let torn = free-IsAccounted t (teardown lost) (teardown-IsFree t lost h.0) in
    elim (Option-cases c.pc) [
      | inl e ↦ rw (e, on_connection_lost) h
      | inr (peer, e) ↦ rw (e, on_connection_lost) torn
    ]

pub on_invite-IsAccounted :
    (t : ℕ) (from : String) (k : CallKind) (sdp : Description) (servers : Option (List String))
    (media : Option MediaStream) (c : CallStore)
    → is_clean (invited from k sdp servers media) ≡ true
    → IsAccounted t c
    → IsAccounted t (on_invite from k sdp servers media c)
unfolding on_invite new_peer_connection
on_invite-IsAccounted t from k sdp servers media c clean h =
    ground (arith, h.0, h.1, h.2, mem-append t (ids_of media) c.captured)

pub on_accept-IsAccounted :
    (t : ℕ) (sdp : Description) (now : ℕ) (c : CallStore)
    → IsAccounted t c
    → IsAccounted t (on_accept sdp now c)
unfolding on_accept flush_pending_candidates
on_accept-IsAccounted t sdp now c h = ground arith

pub on_signal-IsAccounted :
    (t : ℕ) (s : String) (c : CallStore) → IsAccounted t c → IsAccounted t (on_signal s c)
unfolding on_signal
on_signal-IsAccounted t s c h = ground arith
