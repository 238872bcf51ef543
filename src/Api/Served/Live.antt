-- ===== src/Api/Served/Live.antt =====
-- client/src/api/client.ts: the requests of live rooms have a handler.
use dfchat.Common.{ℕ, String, Bool, true, Option, ◌≡◌, refl}
use dfchat.Api.Url.{is_segment}
use dfchat.Api.Routes.{is_served, routes, matches}
use dfchat.Api.Calls.{rooms_requests, broadcasts_requests}
use dfchat.Api.Rooms.{
  get_live_room, create_live_room, get_live_room_owner, list_my_live_rooms, rotate_live_stream_key,
  update_live_room, delete_live_room, stop_live_room, set_live_room_visibility,
  set_live_room_schedule, list_scheduled_live_rooms, list_live_recordings, delete_live_recording,
  list_live_rooms,
}
use dfchat.Api.Broadcasts.{
  update_live_chat_settings, pin_live_danmaku, unpin_live_danmaku, list_live_viewers,
  follow_live_room, unfollow_live_room, get_live_room_follow_status, list_live_danmaku,
  ban_live_user, unban_live_user, report_live_room,
}
use dfchat.Api.Served.{AreServed, AreServed-routed}
use dfchat.Api.Routes.{same_length}

pub rooms_requests-AreServed :
    (a : String) (t : String) (o : Option String) (m : Option ℕ) (b : Bool)
    → is_segment a ≡ true
    → AreServed (rooms_requests a t o m b)
unfolding rooms_requests is_served routes matches same_length get_live_room create_live_room
    get_live_room_owner list_my_live_rooms rotate_live_stream_key update_live_room delete_live_room
    stop_live_room set_live_room_visibility set_live_room_schedule list_scheduled_live_rooms
    list_live_recordings delete_live_recording list_live_rooms
rooms_requests-AreServed String.[] t o m b ha = absurd (cc ha)
rooms_requests-AreServed (String.◌∷◌ c s) t o m b ha =
    AreServed-routed (rooms_requests (String.◌∷◌ c s) t o m b) (rw ha refl)

pub broadcasts_requests-AreServed :
    (a : String) (d : String) (t : String) (o : Option String) (n : ℕ) (m : Option ℕ)
    (f : Option Bool) (b : Bool)
    → is_segment a ≡ true
    → is_segment d ≡ true
    → AreServed (broadcasts_requests a d t o n m f b)
unfolding broadcasts_requests is_served routes matches same_length update_live_chat_settings
    pin_live_danmaku unpin_live_danmaku list_live_viewers follow_live_room unfollow_live_room
    get_live_room_follow_status list_live_danmaku ban_live_user unban_live_user report_live_room
broadcasts_requests-AreServed String.[] d t o n m f b ha hd = absurd (cc ha)
broadcasts_requests-AreServed (String.◌∷◌ c s) String.[] t o n m f b ha hd = absurd (cc hd)
broadcasts_requests-AreServed (String.◌∷◌ c s) (String.◌∷◌ e u) t o n m f b ha hd =
    AreServed-routed (broadcasts_requests (String.◌∷◌ c s) (String.◌∷◌ e u) t o n m f b)
      (rw (ha, hd) refl)
