-- ===== src/Api/Accounts.antt =====
-- client/src/api/client.ts: the requests of the account, its sessions and its addresses.
use dfchat.Common.{String, Option, none, some, [], ◌∷◌, if◌then◌else◌, ◌or_else◌}
use dfchat.Markdown.Inline.{is_blank}
use dfchat.Api.{
  null, text, optional, post, patch, delete, Request, Endpoint, value, whole, items, nothing,
  getting, with_body, bare,
}

-- a request with the stored refresh token as a header, the empty text where there is none
abbrev pub with_refresh_token : Option String → Request → Request
with_refresh_token token r = record r { headers = ("X-Refresh-Token", token or_else "") ∷ [] }

-- `register`
unfoldable pub register :
    (username email password : String)
    → (nickname : Option String) → (account_no selection_token : String) → (website : Option String)
    → Endpoint
register username email password nickname account_no selection_token website =
    with_body post ("auth" ∷ "register" ∷ [])
      (("username", text username)
        ∷ ("email", text email)
        ∷ ("password", text password)
        ∷ ("nickname", optional nickname)
        ∷ ("accountNo", text account_no)
        ∷ ("selectionToken", text selection_token)
        ∷ ("website", optional website)
        ∷ [])
      (value "user")

-- `drawAccountNumbers`
unfoldable pub draw_account_numbers : Endpoint
draw_account_numbers = bare post ("auth" ∷ "account-no" ∷ "draw" ∷ []) whole

-- `refreshAccountNumbers`
unfoldable pub refresh_account_numbers : (selection_token : String) → Endpoint
refresh_account_numbers selection_token =
    with_body post ("auth" ∷ "account-no" ∷ "refresh" ∷ [])
      (("selectionToken", text selection_token) ∷ []) whole

-- `login`
unfoldable pub login : (name password : String) → Endpoint
login name password =
    with_body post ("auth" ∷ "login" ∷ []) (("login", text name) ∷ ("password", text password) ∷ [])
      whole

-- `fetchMe`
unfoldable pub fetch_me : Endpoint
fetch_me = getting ("users" ∷ "me" ∷ []) [] (value "user")

-- `updateMe`
unfoldable pub update_me : (nickname bio avatar_url : Option String) → Endpoint
update_me nickname bio avatar_url =
    with_body patch ("users" ∷ "me" ∷ [])
      (("nickname", optional nickname)
        ∷ ("bio", optional bio)
        ∷ ("avatarUrl", optional avatar_url)
        ∷ [])
      (value "user")

-- `revokeSession`
unfoldable pub revoke_session : (id : String) → Endpoint
revoke_session id = bare delete ("auth" ∷ "sessions" ∷ id ∷ []) nothing

-- `changePassword`
unfoldable pub change_password : (current_password new_password : String) → Endpoint
change_password current_password new_password =
    with_body post ("auth" ∷ "change-password" ∷ [])
      (("currentPassword", text current_password) ∷ ("newPassword", text new_password) ∷ []) nothing

-- `deleteMe`
unfoldable pub delete_me : (password : String) → Endpoint
delete_me password =
    with_body delete ("users" ∷ "me" ∷ []) (("password", text password) ∷ []) nothing

-- `forgotPassword`
unfoldable pub forgot_password : (email : String) → Endpoint
forgot_password email =
    with_body post ("auth" ∷ "forgot-password" ∷ []) (("email", text email) ∷ []) whole

-- `resetPassword`
unfoldable pub reset_password : (token new_password : String) → Endpoint
reset_password token new_password =
    with_body post ("auth" ∷ "reset-password" ∷ [])
      (("token", text token) ∷ ("newPassword", text new_password) ∷ []) nothing

-- `recentLogins`
unfoldable pub recent_logins : Endpoint
recent_logins = getting ("auth" ∷ "recent-logins" ∷ []) [] (items "logs")

-- `sendVerificationEmail`
unfoldable pub send_verification_email : Endpoint
send_verification_email = bare post ("auth" ∷ "send-verification" ∷ []) whole

-- `requestEmailChange`
unfoldable pub request_email_change : (new_email current_password : String) → Endpoint
request_email_change new_email current_password =
    with_body post ("auth" ∷ "request-email-change" ∷ [])
      (("newEmail", text new_email) ∷ ("currentPassword", text current_password) ∷ []) whole

-- `listSessions`
unfoldable pub list_sessions : (refresh_token : Option String) → Endpoint
list_sessions refresh_token =
    let e = getting ("auth" ∷ "sessions" ∷ []) [] (items "sessions") in
    record e { request = with_refresh_token refresh_token e.request }

-- `revokeOtherSessions`
unfoldable pub revoke_other_sessions : (refresh_token : Option String) → Endpoint
revoke_other_sessions refresh_token =
    let e = bare post ("auth" ∷ "sessions" ∷ "revoke-others" ∷ []) (value "revoked") in
    record e { request = with_refresh_token refresh_token (record e.request { body = some null }) }

-- `logoutServer`: without a token nothing is sent. Its errors are ignored.
unfoldable pub logout_server : (refresh_token : Option String) → Option Endpoint
logout_server refresh_token =
    let token = refresh_token or_else "" in
    if is_blank token
    then none
    else some (with_body post ("auth" ∷ "logout" ∷ []) (("refreshToken", text token) ∷ []) nothing)

-- the request of `tryRefresh`, which the WebSocket client makes as well
unfoldable pub refresh_tokens : (refresh_token : String) → Endpoint
refresh_tokens refresh_token =
    with_body post ("auth" ∷ "refresh" ∷ []) (("refreshToken", text refresh_token) ∷ []) whole

-- the request of `fetchIceServers` of client/src/call/store.ts
unfoldable pub turn_credentials : Endpoint
turn_credentials = getting ("turn" ∷ "credentials" ∷ []) [] whole
