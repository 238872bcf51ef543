-- ===== src/Api/Broadcasts.antt =====
-- client/src/api/client.ts: the requests of what goes on in a live room.
use dfchat.Common.{ℕ, String, Bool, Option, [], ◌∷◌}
use dfchat.Api.{
  text, number, flag, optional, optional_number, optional_flag, post, patch, delete, Endpoint,
  value, whole, items, nothing, getting, with_body, bare,
}

-- `updateLiveChatSettings`
unfoldable pub update_live_chat_settings :
    (id : String)
    → (slow_mode_seconds : Option ℕ) → (chat_subscribers_only : Option Bool) → Endpoint
update_live_chat_settings id slow_mode_seconds chat_subscribers_only =
    with_body patch ("live" ∷ "rooms" ∷ id ∷ "chat-settings" ∷ [])
      (("slowModeSeconds", optional_number slow_mode_seconds)
        ∷ ("chatSubscribersOnly", optional_flag chat_subscribers_only)
        ∷ [])
      (value "room")

-- `pinLiveDanmaku`
unfoldable pub pin_live_danmaku :
    (id danmaku : String) → (color sender_id : Option String) → Endpoint
pin_live_danmaku id danmaku color sender_id =
    with_body post ("live" ∷ "rooms" ∷ id ∷ "pin-danmaku" ∷ [])
      (("text", text danmaku) ∷ ("color", optional color) ∷ ("senderId", optional sender_id) ∷ [])
      (value "room")

-- `unpinLiveDanmaku`
unfoldable pub unpin_live_danmaku : (id : String) → Endpoint
unpin_live_danmaku id = bare delete ("live" ∷ "rooms" ∷ id ∷ "pin-danmaku" ∷ []) nothing

-- `listLiveViewers`
unfoldable pub list_live_viewers : (room_id : String) → Endpoint
list_live_viewers room_id = getting ("live" ∷ "rooms" ∷ room_id ∷ "viewers" ∷ []) [] whole

-- `followLiveRoom`
unfoldable pub follow_live_room : (room_id : String) → Endpoint
follow_live_room room_id = bare post ("live" ∷ "rooms" ∷ room_id ∷ "follow" ∷ []) nothing

-- `unfollowLiveRoom`
unfoldable pub unfollow_live_room : (room_id : String) → Endpoint
unfollow_live_room room_id = bare delete ("live" ∷ "rooms" ∷ room_id ∷ "follow" ∷ []) nothing

-- `getLiveRoomFollowStatus`
unfoldable pub get_live_room_follow_status : (room_id : String) → Endpoint
get_live_room_follow_status room_id = getting ("live" ∷ "rooms" ∷ room_id ∷ "follow" ∷ []) [] whole

-- `listLiveDanmaku`
unfoldable pub list_live_danmaku : (room_id : String) → (limit : ℕ) → Endpoint
list_live_danmaku room_id limit =
    getting ("live" ∷ "rooms" ∷ room_id ∷ "danmaku" ∷ []) (("limit", number limit) ∷ [])
      (items "danmaku")

-- `banLiveUser`
unfoldable pub ban_live_user :
    (room_id user_id : String) → (is_kick : Bool) → (reason : Option String) → Endpoint
ban_live_user room_id user_id is_kick reason =
    with_body post ("live" ∷ "rooms" ∷ room_id ∷ "bans" ∷ [])
      (("userId", text user_id) ∷ ("isKick", flag is_kick) ∷ ("reason", optional reason) ∷ [])
      nothing

-- `unbanLiveUser`
unfoldable pub unban_live_user : (room_id user_id : String) → Endpoint
unban_live_user room_id user_id =
    bare delete ("live" ∷ "rooms" ∷ room_id ∷ "bans" ∷ user_id ∷ []) nothing

-- `reportLiveRoom`
unfoldable pub report_live_room : (room_id reason : String) → (note : Option String) → Endpoint
report_live_room room_id reason note =
    with_body post ("live" ∷ "rooms" ∷ room_id ∷ "report" ∷ [])
      (("reason", text reason) ∷ ("note", optional note) ∷ []) nothing
