-- ===== src/Api/Rooms.antt =====
-- client/src/api/client.ts: the requests of live rooms.
use dfchat.Common.{ℕ, String, Bool, Option, none, some, [], ◌∷◌}
use dfchat.Api.{
  set_text, set_number, Json, null, text, flag, object, fields, optional, post, patch, delete,
  Endpoint, value, whole, items, nothing, getting, with_body, bare,
}

abbrev or_null : Option String → Json
or_null none = null
or_null (some s) = text s

-- `getLiveRoom`
unfoldable pub get_live_room : (id : String) → Endpoint
get_live_room id = getting ("live" ∷ "rooms" ∷ id ∷ []) [] whole

-- `createLiveRoom`
unfoldable pub create_live_room : (title : String) → (category : Option String) → Endpoint
create_live_room title category =
    with_body post ("live" ∷ "rooms" ∷ [])
      (("title", text title) ∷ ("category", optional category) ∷ []) whole

-- `getLiveRoomOwner`
unfoldable pub get_live_room_owner : (id : String) → Endpoint
get_live_room_owner id = getting ("live" ∷ "rooms" ∷ id ∷ "owner" ∷ []) [] whole

-- `listMyLiveRooms`
unfoldable pub list_my_live_rooms : Endpoint
list_my_live_rooms = getting ("live" ∷ "mine" ∷ []) [] (items "rooms")

-- `rotateLiveStreamKey`
unfoldable pub rotate_live_stream_key : (id : String) → Endpoint
rotate_live_stream_key id = bare post ("live" ∷ "rooms" ∷ id ∷ "rotate-key" ∷ []) whole

-- `updateLiveRoom`
unfoldable pub update_live_room :
    (id : String) → (title category cover_url : Option String) → Endpoint
update_live_room id title category cover_url =
    with_body patch ("live" ∷ "rooms" ∷ id ∷ [])
      (("title", optional title)
        ∷ ("category", optional category)
        ∷ ("coverUrl", optional cover_url)
        ∷ [])
      (value "room")

-- `deleteLiveRoom`
unfoldable pub delete_live_room : (id : String) → Endpoint
delete_live_room id = bare delete ("live" ∷ "rooms" ∷ id ∷ []) nothing

-- `stopLiveRoom`
unfoldable pub stop_live_room : (id : String) → Endpoint
stop_live_room id = bare post ("live" ∷ "rooms" ∷ id ∷ "stop" ∷ []) nothing

-- `setLiveRoomVisibility`
unfoldable pub set_live_room_visibility : (id : String) → (is_test : Bool) → Endpoint
set_live_room_visibility id is_test =
    with_body patch ("live" ∷ "rooms" ∷ id ∷ "visibility" ∷ []) (("isTest", flag is_test) ∷ [])
      (value "room")

-- `setLiveRoomSchedule`
unfoldable pub set_live_room_schedule :
    (room_id : String) → (scheduled_at : Option String) → Endpoint
set_live_room_schedule room_id scheduled_at =
    with_body patch ("live" ∷ "rooms" ∷ room_id ∷ "schedule" ∷ [])
      (("scheduledAt", or_null scheduled_at) ∷ []) nothing

-- `listScheduledLiveRooms`
unfoldable pub list_scheduled_live_rooms : Endpoint
list_scheduled_live_rooms = getting ("live" ∷ "scheduled" ∷ []) [] (items "rooms")

-- `listLiveRecordings`
unfoldable pub list_live_recordings : (room_id : String) → Endpoint
list_live_recordings room_id =
    getting ("live" ∷ "rooms" ∷ room_id ∷ "recordings" ∷ []) [] (items "recordings")

-- `deleteLiveRecording`
unfoldable pub delete_live_recording : (recording_id : String) → Endpoint
delete_live_recording recording_id = bare delete ("live" ∷ "recordings" ∷ recording_id ∷ []) nothing

-- `listLiveRooms`
unfoldable pub list_live_rooms : (q category : Option String) (limit : Option ℕ) → Endpoint
list_live_rooms q category limit =
    getting ("live" ∷ "rooms" ∷ [])
      (("q", set_text q) ∷ ("category", set_text category) ∷ ("limit", set_number limit) ∷ [])
      (λ o. object (fields (("rooms", items "rooms" o) ∷ ("hlsBase", value "hlsBase" o) ∷ [])))
