-- ===== src/Api/Served/People.antt =====
-- client/src/api/client.ts: the requests of the account and of friends have a handler.
use dfchat.Common.{String, true, Option, none, some, ◌≡◌, refl}
use dfchat.Api.Url.{is_segment}
use dfchat.Api.Routes.{is_served, routes, matches}
use dfchat.Api.Calls.{accounts_requests, friends_requests, session_requests}
use dfchat.Api.Accounts.{
  register, draw_account_numbers, refresh_account_numbers, login, fetch_me, update_me,
  revoke_session, change_password, delete_me, forgot_password, reset_password, recent_logins,
  send_verification_email, request_email_change, list_sessions, revoke_other_sessions,
  logout_server, refresh_tokens, turn_credentials,
}
use dfchat.Api.Friends.{
  list_friends, add_friend, accept_friend_request, drop_friend_request, block_user, unblock_user,
  list_blocked_users, list_friend_requests,
}
use dfchat.Api.Served.{AreServed, AreServed-routed}
use dfchat.Api.Routes.{same_length}

pub accounts_requests-AreServed :
    (a : String) (t : String) (o : Option String)
    → is_segment a ≡ true
    → AreServed (accounts_requests a t o)
unfolding accounts_requests is_served routes matches same_length register draw_account_numbers
    refresh_account_numbers login fetch_me update_me revoke_session change_password delete_me
    forgot_password reset_password recent_logins send_verification_email request_email_change
    list_sessions revoke_other_sessions logout_server
accounts_requests-AreServed String.[] t o ha = absurd (cc ha)
accounts_requests-AreServed (String.◌∷◌ c s) t none ha =
    AreServed-routed (accounts_requests (String.◌∷◌ c s) t none) (rw ha refl)
accounts_requests-AreServed (String.◌∷◌ c s) t (some String.[]) ha =
    AreServed-routed (accounts_requests (String.◌∷◌ c s) t (some "")) (rw ha refl)
accounts_requests-AreServed (String.◌∷◌ c s) t (some (String.◌∷◌ e u)) ha =
    AreServed-routed (accounts_requests (String.◌∷◌ c s) t (some (String.◌∷◌ e u))) (rw ha refl)

pub friends_requests-AreServed :
    (a : String) (t : String) → is_segment a ≡ true → AreServed (friends_requests a t)
unfolding friends_requests is_served routes matches same_length list_friends add_friend
    accept_friend_request drop_friend_request block_user unblock_user list_blocked_users
    list_friend_requests
friends_requests-AreServed String.[] t ha = absurd (cc ha)
friends_requests-AreServed (String.◌∷◌ c s) t ha =
    AreServed-routed (friends_requests (String.◌∷◌ c s) t) (rw ha refl)

pub session_requests-AreServed : (t : String) → AreServed (session_requests t)
unfolding session_requests is_served routes matches same_length refresh_tokens turn_credentials
session_requests-AreServed t = AreServed-routed (session_requests t) refl
