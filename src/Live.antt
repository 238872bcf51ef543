-- ===== src/Live.antt =====
-- client/src/pages/Live.tsx: a viewer in a room of the live pages, on the client of
-- client/src/ws/client.ts. A room is the JSON object that the server sends.
pub mod Player
pub mod Retries
pub mod Frames
pub mod Subscription
use Prim.Native.String.{◌++◌}
use dfchat.Common.{
  ℕ, ◌+◌, ◌-◌, String, Bool, true, false, not, ◌&&◌, ◌||◌, Option, none, some, List, [], ◌∷◌, ltb,
  if◌then◌else◌, ◌or_else◌, ◌==◌, push, slice_last, get_elem?,
}
use dfchat.Common.Dict.{Dict, get, spread}
use dfchat.Types.{Json, boolean}
use dfchat.View.Text.{trim}
use dfchat.Ws.{WsClient, send}

pub record DanmakuEvent : Type 0 where
  pub room_id : String
  pub text : String
  pub color : Option String
  pub sender_id : String
  pub sender_nickname : Option String
  pub sender_account_no : Option String
  pub ts : ℕ

-- The user of the session.
pub record Me : Type 0 where
  pub id : String
  pub nickname : String
  pub account_no : String

pub data Quality : Type 0 where
  ld src : Quality

-- The variables of `Watch` with the two keys of localStorage that it writes, and the client that all
-- pages share. `leaving` is the time after which the view goes back, once a timer is set.
pub record Watch : Type 0 where
  pub room_id : String
  pub is_owner : Bool
  pub live_room : Dict Json
  pub danmaku : List DanmakuEvent
  pub text : String
  pub viewer_count : ℕ
  pub following : Bool
  pub follower_count : ℕ
  pub my_color : String
  pub stored_color : Option String
  pub show_color_picker : Bool
  pub quality : Quality
  pub show_quality_menu : Bool
  pub show_hd_consent : Bool
  pub hd_agreed : Bool
  pub leaving : Option ℕ
  pub toasts : List String
  pub ws : WsClient

abbrev pub live_subscribe : String
live_subscribe = "live.subscribe"

-- The effect that subscribes, and its end.
unfoldable pub mount : Watch → Watch
mount w = if w.room_id == "" then w else record w { ws = (send live_subscribe w.ws).0 }

unfoldable pub unmount : Watch → Watch
unmount w = if w.room_id == "" then w else record w { ws = (send "live.unsubscribe" w.ws).0 }

-- The answer to `listLiveDanmaku`, `none` for an error or after the view was left.
unfoldable pub on_history : Option (List DanmakuEvent) → Watch → Watch
on_history none w = w
on_history (some items) w = record w { danmaku = items }

unfoldable pub on_follow_status : Option (Bool × ℕ) → Watch → Watch
on_follow_status none w = w
on_follow_status (some (following, count)) w =
    if w.is_owner then w else record w { following = following; follower_count = count }

-- An event of the server about a room. `rejected` has the seconds that `slow_mode` names, as a text.
pub data LiveEvent : Type 0 where
  danmaku_recv : DanmakuEvent → LiveEvent
  viewer_count_is : (room_id : String) (count : ℕ) → LiveEvent
  room_updated : (room_id : String) (patch : Dict Json) → LiveEvent
  danmaku_rejected : (reason seconds : String) → LiveEvent
  room_deleted : (room_id : String) → LiveEvent

abbrev pub is_test : Dict Json → Bool
is_test p = elim (get "isTest" p) [ some (boolean b) ↦ b | _ ↦ false ]

abbrev pub rejection : String → String → String
rejection reason seconds =
    if reason == "banned"
    then "你已被禁言，无法发送弹幕"
    else if reason == "not_subscribed"
    then "请等待页面准备就绪后再发送"
    else if reason == "subscribers_only"
    then "主播开启了仅关注者发言，关注后即可弹幕"
    else if reason == "slow_mode"
    then "慢速模式中，请 " ++ seconds ++ " 秒后再发"
    else "弹幕被拒绝"

unfoldable pub on_live_event : LiveEvent → Watch → Watch
on_live_event (danmaku_recv d) w =
    if d.room_id == w.room_id then record w { danmaku = push (slice_last 150 w.danmaku) d } else w
on_live_event (viewer_count_is room_id count) w =
    if room_id == w.room_id then record w { viewer_count = count } else w
on_live_event (room_updated room_id patch) w =
    let updated = record w { live_room = spread w.live_room patch } in
    if not (room_id == w.room_id)
    then w
    else if is_test patch && not w.is_owner
    then record updated { toasts = "主播已切回试播模式，即将退出" ∷ w.toasts; leaving = some 1500 }
    else updated
on_live_event (danmaku_rejected reason seconds) w = record w {
  toasts = rejection reason seconds ∷ w.toasts;
}
on_live_event (room_deleted room_id) w =
    if room_id == w.room_id
    then record w { toasts = "直播间已被关闭" ∷ w.toasts; leaving = some 1200 }
    else w

-- `sendDanmaku`, with the clock
unfoldable pub send_danmaku : Option Me → ℕ → Watch → Watch
send_danmaku none now w = w
send_danmaku (some me) now w =
    let t = trim w.text in
    let out = send "live.danmaku.send" w.ws in
    let mine : DanmakuEvent = record {
      room_id = w.room_id;
      text = t;
      color = some w.my_color;
      sender_id = me.id;
      sender_nickname = some me.nickname;
      sender_account_no = some me.account_no;
      ts = now;
    } in
    if t == ""
    then w
    else if out.1
    then record w { ws = out.0; danmaku = push w.danmaku mine; text = "" }
    else record w { ws = out.0; toasts = "网络中断中，正在重连。请稍后再发" ∷ w.toasts }

-- `toggleFollow` with the answer to its request, for what `following` was when it was clicked
unfoldable pub on_follow_toggled : Bool → Option String → Watch → Watch
on_follow_toggled was (some why) w = record w { toasts = why ∷ w.toasts }
on_follow_toggled true none w = record w {
  following = false;
  follower_count = w.follower_count - 1;
}
on_follow_toggled false none w = record w {
  following = true;
  follower_count = w.follower_count + 1;
  toasts = "已关注，主播开播会通知你" ∷ w.toasts;
}

unfoldable pub pick_color : String → Watch → Watch
pick_color c w = record w { my_color = c; stored_color = some c; show_color_picker = false }

unfoldable pub pick_quality : Quality → Watch → Watch
pick_quality q w =
    let closed = record w { show_quality_menu = false } in
    elim q [
      | src ↦ elim w.quality [
        | src ↦ closed
        | ld ↦
            if w.hd_agreed
            then record closed { quality = src }
            else record closed { show_hd_consent = true }
      ]
      | ld ↦ record closed { quality = ld }
    ]

unfoldable pub confirm_hd : Watch → Watch
confirm_hd w = record w { hd_agreed = true; show_hd_consent = false; quality = src }
