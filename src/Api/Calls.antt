-- ===== src/Api/Calls.antt =====
-- The requests of client/src/api/client.ts, for any ids in the path and any values in the body and the
-- query, where values of one type stand for each other.
use dfchat.Common.{ℕ, String, Bool, Option, none, some, List, [], ◌∷◌, ◌++◌, map}
use dfchat.Api.{Request, Endpoint}
use dfchat.Api.Accounts.{
  register, draw_account_numbers, refresh_account_numbers, login, fetch_me, update_me,
  revoke_session, change_password, delete_me, forgot_password, reset_password, recent_logins,
  send_verification_email, request_email_change, list_sessions, revoke_other_sessions,
  logout_server, refresh_tokens, turn_credentials,
}
use dfchat.Api.Friends.{
  list_friends, add_friend, accept_friend_request, drop_friend_request, block_user, unblock_user,
  list_blocked_users, list_friend_requests,
}
use dfchat.Api.Groups.{
  update_group, leave_group, delete_group, transfer_group_owner, rotate_group_invite_code,
  search_group_members, get_group_notify_mode, set_group_notify_mode, list_groups, create_group,
  join_group, list_group_members, set_member_role, kick_member, list_channels, create_channel,
  rename_channel, reorder_channels, delete_channel,
}
use dfchat.Api.Messages.{
  set_conversation_preferences, list_conversation_files, list_messages, list_messages_after,
  list_messages_around, request_upload_token, confirm_upload, sync_conversations, recall_message,
  edit_message, delete_message, add_reaction, remove_reaction, pin_message, unpin_message,
  list_pins, mark_read, post_message, SendBody, search_messages,
}
use dfchat.Api.Rooms.{
  get_live_room, create_live_room, get_live_room_owner, list_my_live_rooms, rotate_live_stream_key,
  update_live_room, delete_live_room, stop_live_room, set_live_room_visibility,
  set_live_room_schedule, list_scheduled_live_rooms, list_live_recordings, delete_live_recording,
  list_live_rooms,
}
use dfchat.Api.Broadcasts.{
  update_live_chat_settings, pin_live_danmaku, unpin_live_danmaku, list_live_viewers,
  follow_live_room, unfollow_live_room, get_live_room_follow_status, list_live_danmaku,
  ban_live_user, unban_live_user, report_live_room,
}
use dfchat.Api.Admin.{
  admin_stats, admin_account_pool_stats, admin_list_users, admin_set_user_status, admin_user_logins,
  admin_force_logout_user, admin_list_premium_numbers, admin_grant_premium_number,
  admin_release_premium_number, admin_list_live_rooms, admin_force_end_live, admin_ban_live_room,
  admin_delete_live_room, admin_resolve_live_report, admin_list_live_patrol,
  admin_label_live_verdict, admin_pin_live_verdict, admin_list_live_reports,
  admin_list_live_verdicts,
}

-- the request of a function that may send nothing
abbrev pub sent : Option Endpoint → List Request
sent none = []
sent (some e) = e.request ∷ []

abbrev pub requests_of : List Endpoint → List Request
requests_of es = map (λ e. e.request) es

unfoldable pub accounts_requests : (a : String) → (t : String) → (o : Option String) → List Request
accounts_requests a t o =
    requests_of (
      register t t t o t t o
      ∷ draw_account_numbers
      ∷ refresh_account_numbers t
      ∷ login t t
      ∷ fetch_me
      ∷ update_me o o o
      ∷ revoke_session a
      ∷ change_password t t
      ∷ delete_me t
      ∷ forgot_password t
      ∷ reset_password t t
      ∷ recent_logins
      ∷ send_verification_email
      ∷ request_email_change t t
      ∷ list_sessions o
      ∷ revoke_other_sessions o
      ∷ [])
    ++ sent (logout_server o)

-- what is sent beside the functions that api/client.ts exports
unfoldable pub session_requests : (t : String) → List Request
session_requests t = requests_of (refresh_tokens t ∷ turn_credentials ∷ [])

unfoldable pub friends_requests : (a : String) → (t : String) → List Request
friends_requests a t = requests_of (
    list_friends
    ∷ add_friend t
    ∷ accept_friend_request a
    ∷ drop_friend_request a
    ∷ block_user a
    ∷ unblock_user a
    ∷ list_blocked_users
    ∷ list_friend_requests
    ∷ [])

unfoldable pub groups_requests :
    (a : String)
    → (d : String) → (t : String) → (o : Option String) → (n : ℕ) → (f : Option Bool)
    → (l : List String) → List Request
groups_requests a d t o n f l = requests_of (
    update_group a o o o o f
    ∷ leave_group a
    ∷ delete_group a
    ∷ transfer_group_owner a t
    ∷ rotate_group_invite_code a
    ∷ search_group_members a t
    ∷ get_group_notify_mode a
    ∷ set_group_notify_mode a n
    ∷ list_groups
    ∷ create_group t
    ∷ join_group t
    ∷ list_group_members a
    ∷ set_member_role a d n
    ∷ kick_member a d
    ∷ list_channels a
    ∷ create_channel a t
    ∷ rename_channel a t
    ∷ reorder_channels a l
    ∷ delete_channel a
    ∷ [])

unfoldable pub messages_requests :
    (a : String)
    → (d : String) → (t : String) → (o : Option String) → (n : ℕ) → (b : Bool) → (body : SendBody)
    → List Request
messages_requests a d t o n b body =
    requests_of (
      set_conversation_preferences a b
      ∷ list_conversation_files a
      ∷ list_messages t n
      ∷ list_messages_after t n n
      ∷ list_messages_around t n n
      ∷ request_upload_token t t n t
      ∷ confirm_upload t
      ∷ sync_conversations
      ∷ recall_message a
      ∷ edit_message a t
      ∷ delete_message a
      ∷ add_reaction a t
      ∷ remove_reaction a d
      ∷ pin_message a
      ∷ unpin_message a
      ∷ list_pins a
      ∷ mark_read a n
      ∷ post_message body
      ∷ [])
    ++ sent (search_messages t o)

unfoldable pub rooms_requests :
    (a : String) → (t : String) → (o : Option String) → (m : Option ℕ) → (b : Bool) → List Request
rooms_requests a t o m b = requests_of (
    get_live_room a
    ∷ create_live_room t o
    ∷ get_live_room_owner a
    ∷ list_my_live_rooms
    ∷ rotate_live_stream_key a
    ∷ update_live_room a o o o
    ∷ delete_live_room a
    ∷ stop_live_room a
    ∷ set_live_room_visibility a b
    ∷ set_live_room_schedule a o
    ∷ list_scheduled_live_rooms
    ∷ list_live_recordings a
    ∷ delete_live_recording a
    ∷ list_live_rooms o o m
    ∷ [])

unfoldable pub broadcasts_requests :
    (a : String)
    → (d : String) → (t : String) → (o : Option String) → (n : ℕ) → (m : Option ℕ)
    → (f : Option Bool) → (b : Bool) → List Request
broadcasts_requests a d t o n m f b = requests_of (
    update_live_chat_settings a m f
    ∷ pin_live_danmaku a t o o
    ∷ unpin_live_danmaku a
    ∷ list_live_viewers a
    ∷ follow_live_room a
    ∷ unfollow_live_room a
    ∷ get_live_room_follow_status a
    ∷ list_live_danmaku a n
    ∷ ban_live_user a t b o
    ∷ unban_live_user a d
    ∷ report_live_room a t o
    ∷ [])

unfoldable pub admin_requests :
    (a : String)
    → (t : String) → (o : Option String) → (n : ℕ) → (m : Option ℕ) → (f : Option Bool) → (b : Bool)
    → List Request
admin_requests a t o n m f b = requests_of (
    admin_stats
    ∷ admin_account_pool_stats
    ∷ admin_list_users o m m o
    ∷ admin_set_user_status a n
    ∷ admin_user_logins a n
    ∷ admin_force_logout_user a
    ∷ admin_list_premium_numbers m n
    ∷ admin_grant_premium_number a t
    ∷ admin_release_premium_number a
    ∷ admin_list_live_rooms o
    ∷ admin_force_end_live a
    ∷ admin_ban_live_room a b o
    ∷ admin_delete_live_room a
    ∷ admin_resolve_live_report a n t
    ∷ admin_list_live_patrol
    ∷ admin_label_live_verdict a t o
    ∷ admin_pin_live_verdict a b
    ∷ admin_list_live_reports n
    ∷ admin_list_live_verdicts o f f m
    ∷ [])
