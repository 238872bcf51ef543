-- ===== src/Tests/Lives.antt =====
-- A viewer of a live room whose socket is still opening.
use dfchat.Common.{Option, ℕ, ◌≡◌, refl, true, false, none, some, List, [], ◌∷◌}
use dfchat.Common.Dict.{get}
use dfchat.Types.{boolean}
use dfchat.Ws.{connecting}
use dfchat.Ws.Step.{Event, opened, closes, timer, sends, heartbeat, run}
use dfchat.Tests.Sockets.{with_socket}
use dfchat.Live.{Watch, src, live_subscribe, mount, viewer_count_is, room_updated, on_live_event}
use dfchat.Live.Frames.{sent_of}
use dfchat.Live.Subscription
use dfchat.Live.Player.{Player, build_player}
use dfchat.Live.Retries
use dfchat.Live.Retries.{run_offline, run_refused}

abbrev watching : Watch
watching = record {
  room_id = "3";
  is_owner = false;
  live_room = [];
  danmaku = [];
  text = "";
  viewer_count = 0;
  following = false;
  follower_count = 0;
  my_color = "#ffffff";
  stored_color = none;
  show_color_picker = false;
  quality = src;
  show_quality_menu = false;
  show_hd_consent = false;
  hd_agreed = false;
  leaving = none;
  toasts = [];
  ws = with_socket connecting;
}

abbrev later : List Event
later =
    opened 0 100
    ∷ heartbeat 20000
    ∷ sends "live.danmaku.send"
    ∷ closes false 0 1006
    ∷ timer false
    ∷ []

sent_of-run-mount_example : sent_of live_subscribe (run later (mount watching).ws) ≡ []
sent_of-run-mount_example = Subscription.sent_of-run-mount watching later refl (refl, tt)

seen_count : (on_live_event (viewer_count_is "3" 12) watching).viewer_count ≡ 12
unfolding on_live_event
seen_count = refl

back_to_test :
    (on_live_event (room_updated "3" (("isTest", boolean true) ∷ [])) watching).leaving ≡ some 1500
unfolding on_live_event get
back_to_test = refl

abbrev idle_player : Player
idle_player = record {
  network_retries = 3;
  error = none;
  playback_url = "https://live/a.m3u8";
  loads = 0;
  refreshes = 0;
  built = 0;
}

abbrev failures : List (Option ℕ)
failures = none ∷ some 404 ∷ some 502 ∷ none ∷ none ∷ none ∷ none ∷ none ∷ some 404 ∷ none ∷ []

run_player_example :
    let made = build_player idle_player in
    ((run_offline failures made).loads ≡ 8)
    × ((run_offline failures made).error ≡ some "主播离线（无法连接到直播流）")
    × ((run_refused ("u" ∷ "v" ∷ []) made).refreshes ≡ 2)
run_player_example = Retries.run_player idle_player failures ("u" ∷ "v" ∷ []) refl refl
