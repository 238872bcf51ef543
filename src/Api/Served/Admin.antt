-- ===== src/Api/Served/Admin.antt =====
-- client/src/api/client.ts: the requests of the administration have a handler.
use dfchat.Common.{ℕ, String, Bool, true, Option, ◌≡◌, refl}
use dfchat.Api.Url.{is_segment}
use dfchat.Api.Routes.{is_served, routes, matches}
use dfchat.Api.Calls.{admin_requests}
use dfchat.Api.Admin.{
  admin_stats, admin_account_pool_stats, admin_list_users, admin_set_user_status, admin_user_logins,
  admin_force_logout_user, admin_list_premium_numbers, admin_grant_premium_number,
  admin_release_premium_number, admin_list_live_rooms, admin_force_end_live, admin_ban_live_room,
  admin_delete_live_room, admin_resolve_live_report, admin_list_live_patrol,
  admin_label_live_verdict, admin_pin_live_verdict, admin_list_live_reports,
  admin_list_live_verdicts,
}
use dfchat.Api.Served.{AreServed, AreServed-routed}
use dfchat.Api.Routes.{same_length}

pub admin_requests-AreServed :
    (a : String) (t : String) (o : Option String) (n : ℕ) (m : Option ℕ) (f : Option Bool)
    (b : Bool)
    → is_segment a ≡ true
    → AreServed (admin_requests a t o n m f b)
unfolding admin_requests is_served routes matches same_length admin_stats admin_account_pool_stats
    admin_list_users admin_set_user_status admin_user_logins admin_force_logout_user
    admin_list_premium_numbers admin_grant_premium_number admin_release_premium_number
    admin_list_live_rooms admin_force_end_live admin_ban_live_room admin_delete_live_room
    admin_resolve_live_report admin_list_live_patrol admin_label_live_verdict admin_pin_live_verdict
    admin_list_live_reports admin_list_live_verdicts
admin_requests-AreServed String.[] t o n m f b ha = absurd (cc ha)
admin_requests-AreServed (String.◌∷◌ c s) t o n m f b ha =
    AreServed-routed (admin_requests (String.◌∷◌ c s) t o n m f b) (rw ha refl)
