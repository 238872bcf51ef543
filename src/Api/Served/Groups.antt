-- ===== src/Api/Served/Groups.antt =====
-- client/src/api/client.ts: the requests of groups and channels have a handler.
use dfchat.Common.{ℕ, String, Bool, true, Option, List, ◌≡◌, refl}
use dfchat.Api.Url.{is_segment}
use dfchat.Api.Routes.{is_served, routes, matches}
use dfchat.Api.Calls.{groups_requests}
use dfchat.Api.Groups.{
  update_group, leave_group, delete_group, transfer_group_owner, rotate_group_invite_code,
  search_group_members, get_group_notify_mode, set_group_notify_mode, list_groups, create_group,
  join_group, list_group_members, set_member_role, kick_member, list_channels, create_channel,
  rename_channel, reorder_channels, delete_channel,
}
use dfchat.Api.Served.{AreServed, AreServed-routed}
use dfchat.Api.Routes.{same_length}

pub groups_requests-AreServed :
    (a : String) (d : String) (t : String) (o : Option String) (n : ℕ) (f : Option Bool)
    (l : List String)
    → is_segment a ≡ true
    → is_segment d ≡ true
    → AreServed (groups_requests a d t o n f l)
unfolding groups_requests is_served routes matches same_length update_group leave_group delete_group
    transfer_group_owner rotate_group_invite_code search_group_members get_group_notify_mode
    set_group_notify_mode list_groups create_group join_group list_group_members set_member_role
    kick_member list_channels create_channel rename_channel reorder_channels delete_channel
groups_requests-AreServed String.[] d t o n f l ha hd = absurd (cc ha)
groups_requests-AreServed (String.◌∷◌ c s) String.[] t o n f l ha hd = absurd (cc hd)
groups_requests-AreServed (String.◌∷◌ c s) (String.◌∷◌ e u) t o n f l ha hd =
    AreServed-routed (groups_requests (String.◌∷◌ c s) (String.◌∷◌ e u) t o n f l)
      (rw (ha, hd) refl)
