-- ===== src/Api/Groups.antt =====
-- client/src/api/client.ts: the requests of groups, their members and channels.
use dfchat.Common.{ℕ, String, Bool, Option, List, [], ◌∷◌, if◌then◌else◌}
use dfchat.Markdown.Inline.{is_blank}
use dfchat.Api.{
  text, number, optional, optional_flag, texts, post, patch, delete, Endpoint, value, items,
  nothing, getting, with_body, bare,
}

-- `updateGroup`
unfoldable pub update_group :
    (id : String)
    → (name icon_url description announcement : Option String) → (is_public : Option Bool)
    → Endpoint
update_group id name icon_url description announcement is_public =
    with_body patch ("groups" ∷ id ∷ [])
      (("name", optional name)
        ∷ ("iconUrl", optional icon_url)
        ∷ ("description", optional description)
        ∷ ("announcement", optional announcement)
        ∷ ("isPublic", optional_flag is_public)
        ∷ [])
      (value "group")

-- `leaveGroup`
unfoldable pub leave_group : (id : String) → Endpoint
leave_group id = bare delete ("groups" ∷ id ∷ "leave" ∷ []) nothing

-- `deleteGroup`
unfoldable pub delete_group : (id : String) → Endpoint
delete_group id = bare delete ("groups" ∷ id ∷ []) nothing

-- `transferGroupOwner`
unfoldable pub transfer_group_owner : (id new_owner_user_id : String) → Endpoint
transfer_group_owner id new_owner_user_id =
    with_body post ("groups" ∷ id ∷ "transfer" ∷ []) (("userId", text new_owner_user_id) ∷ [])
      nothing

-- `rotateGroupInviteCode`
unfoldable pub rotate_group_invite_code : (id : String) → Endpoint
rotate_group_invite_code id =
    bare post ("groups" ∷ id ∷ "invite" ∷ "rotate" ∷ []) (value "inviteCode")

-- `searchGroupMembers`
unfoldable pub search_group_members : (group_id q : String) → Endpoint
search_group_members group_id q =
    getting ("groups" ∷ group_id ∷ "members" ∷ []) (if is_blank q then [] else ("q", text q) ∷ [])
      (items "members")

-- `getGroupNotifyMode`
unfoldable pub get_group_notify_mode : (id : String) → Endpoint
get_group_notify_mode id = getting ("groups" ∷ id ∷ "notify" ∷ []) [] (value "mode")

-- `setGroupNotifyMode`
unfoldable pub set_group_notify_mode : (id : String) → (mode : ℕ) → Endpoint
set_group_notify_mode id mode =
    with_body patch ("groups" ∷ id ∷ "notify" ∷ []) (("mode", number mode) ∷ []) nothing

-- `listGroups`
unfoldable pub list_groups : Endpoint
list_groups = getting ("groups" ∷ []) [] (items "groups")

-- `createGroup`
unfoldable pub create_group : (name : String) → Endpoint
create_group name = with_body post ("groups" ∷ []) (("name", text name) ∷ []) (value "group")

-- `joinGroup`
unfoldable pub join_group : (invite_code : String) → Endpoint
join_group invite_code =
    with_body post ("groups" ∷ "join" ∷ []) (("inviteCode", text invite_code) ∷ []) (value "group")

-- `listGroupMembers`
unfoldable pub list_group_members : (group_id : String) → Endpoint
list_group_members group_id = getting ("groups" ∷ group_id ∷ "members" ∷ []) [] (items "members")

-- `setMemberRole`
unfoldable pub set_member_role : (group_id user_id : String) → (role : ℕ) → Endpoint
set_member_role group_id user_id role =
    with_body patch ("groups" ∷ group_id ∷ "members" ∷ user_id ∷ "role" ∷ [])
      (("role", number role) ∷ []) nothing

-- `kickMember`
unfoldable pub kick_member : (group_id user_id : String) → Endpoint
kick_member group_id user_id = bare delete ("groups" ∷ group_id ∷ "members" ∷ user_id ∷ []) nothing

-- `listChannels`
unfoldable pub list_channels : (group_id : String) → Endpoint
list_channels group_id = getting ("groups" ∷ group_id ∷ "channels" ∷ []) [] (items "channels")

-- `createChannel`
unfoldable pub create_channel : (group_id name : String) → Endpoint
create_channel group_id name =
    with_body post ("groups" ∷ group_id ∷ "channels" ∷ []) (("name", text name) ∷ [])
      (value "channel")

-- `renameChannel`
unfoldable pub rename_channel : (channel_id name : String) → Endpoint
rename_channel channel_id name =
    with_body patch ("channels" ∷ channel_id ∷ []) (("name", text name) ∷ []) (value "channel")

-- `reorderChannels`
unfoldable pub reorder_channels :
    (group_id : String) → (ordered_channel_ids : List String) → Endpoint
reorder_channels group_id ordered_channel_ids =
    with_body patch ("groups" ∷ group_id ∷ "channels" ∷ "positions" ∷ [])
      (("order", texts ordered_channel_ids) ∷ []) nothing

-- `deleteChannel`
unfoldable pub delete_channel : (channel_id : String) → Endpoint
delete_channel channel_id = bare delete ("channels" ∷ channel_id ∷ []) nothing
