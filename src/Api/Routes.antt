-- ===== src/Api/Routes.antt =====
-- server/internal: the routes that each handler registers below /api/v1, and how a request meets them.
-- A segment that starts with a colon is a parameter, which any text but the empty one fills.
use Prim.Native.Char.{code}
use dfchat.Common.{
  map, String, Bool, true, false, not, ◌&&◌, List, [], ◌∷◌, ◌++◌, nat_eq, ◌==◌, any, if◌then◌else◌,
}
use dfchat.Markdown.Inline.{is_blank}
use dfchat.Api.{Method, get, post, patch, delete, v1}

abbrev pub Route : Type 0
Route = Method × List String

abbrev pub auth_routes : List Route
auth_routes =
    (post, "auth" ∷ "register" ∷ [])
    ∷ (post, "auth" ∷ "login" ∷ [])
    ∷ (post, "auth" ∷ "forgot-password" ∷ [])
    ∷ (post, "auth" ∷ "reset-password" ∷ [])
    ∷ (post, "auth" ∷ "account-no" ∷ "draw" ∷ [])
    ∷ (post, "auth" ∷ "account-no" ∷ "refresh" ∷ [])
    ∷ (post, "auth" ∷ "refresh" ∷ [])
    ∷ (get, "auth" ∷ "verify-email" ∷ [])
    ∷ (get, "auth" ∷ "confirm-email-change" ∷ [])
    ∷ (get, "auth" ∷ "sessions" ∷ [])
    ∷ (delete, "auth" ∷ "sessions" ∷ ":id" ∷ [])
    ∷ (post, "auth" ∷ "logout" ∷ [])
    ∷ (post, "auth" ∷ "change-password" ∷ [])
    ∷ (post, "auth" ∷ "sessions" ∷ "revoke-others" ∷ [])
    ∷ (post, "auth" ∷ "send-verification" ∷ [])
    ∷ (post, "auth" ∷ "request-email-change" ∷ [])
    ∷ (get, "auth" ∷ "recent-logins" ∷ [])
    ∷ []

abbrev pub user_routes : List Route
user_routes =
    (get, "users" ∷ "me" ∷ []) ∷ (patch, "users" ∷ "me" ∷ []) ∷ (delete, "users" ∷ "me" ∷ []) ∷ []

abbrev pub friend_routes : List Route
friend_routes =
    (get, "friends" ∷ [])
    ∷ (post, "friends" ∷ [])
    ∷ (post, "friends" ∷ "requests" ∷ [])
    ∷ (delete, "friends" ∷ ":id" ∷ [])
    ∷ (get, "friends" ∷ "requests" ∷ [])
    ∷ (post, "friends" ∷ "requests" ∷ ":id" ∷ "accept" ∷ [])
    ∷ (delete, "friends" ∷ "requests" ∷ ":id" ∷ [])
    ∷ (get, "friends" ∷ "blocked" ∷ [])
    ∷ (post, "friends" ∷ "blocked" ∷ ":id" ∷ [])
    ∷ (delete, "friends" ∷ "blocked" ∷ ":id" ∷ [])
    ∷ []

abbrev pub group_routes : List Route
group_routes =
    (get, "groups" ∷ [])
    ∷ (post, "groups" ∷ [])
    ∷ (post, "groups" ∷ "join" ∷ [])
    ∷ (get, "groups" ∷ ":id" ∷ [])
    ∷ (patch, "groups" ∷ ":id" ∷ [])
    ∷ (delete, "groups" ∷ ":id" ∷ [])
    ∷ (get, "groups" ∷ ":id" ∷ "members" ∷ [])
    ∷ (delete, "groups" ∷ ":id" ∷ "leave" ∷ [])
    ∷ (patch, "groups" ∷ ":id" ∷ "members" ∷ ":userId" ∷ "role" ∷ [])
    ∷ (delete, "groups" ∷ ":id" ∷ "members" ∷ ":userId" ∷ [])
    ∷ (get, "groups" ∷ ":id" ∷ "notify" ∷ [])
    ∷ (patch, "groups" ∷ ":id" ∷ "notify" ∷ [])
    ∷ (post, "groups" ∷ ":id" ∷ "transfer" ∷ [])
    ∷ (post, "groups" ∷ ":id" ∷ "invite" ∷ "rotate" ∷ [])
    ∷ []

abbrev pub channel_routes : List Route
channel_routes =
    (get, "groups" ∷ ":id" ∷ "channels" ∷ [])
    ∷ (post, "groups" ∷ ":id" ∷ "channels" ∷ [])
    ∷ (patch, "groups" ∷ ":id" ∷ "channels" ∷ "positions" ∷ [])
    ∷ (patch, "channels" ∷ ":id" ∷ [])
    ∷ (delete, "channels" ∷ ":id" ∷ [])
    ∷ []

abbrev pub message_routes : List Route
message_routes =
    (post, "messages" ∷ [])
    ∷ (patch, "messages" ∷ ":id" ∷ [])
    ∷ (delete, "messages" ∷ ":id" ∷ [])
    ∷ (post, "messages" ∷ ":id" ∷ "recall" ∷ [])
    ∷ (post, "messages" ∷ ":id" ∷ "reactions" ∷ [])
    ∷ (delete, "messages" ∷ ":id" ∷ "reactions" ∷ ":emoji" ∷ [])
    ∷ (post, "messages" ∷ ":id" ∷ "pin" ∷ [])
    ∷ (delete, "messages" ∷ ":id" ∷ "pin" ∷ [])
    ∷ (get, "messages" ∷ [])
    ∷ (get, "conversations" ∷ ":id" ∷ "pins" ∷ [])
    ∷ (post, "conversations" ∷ ":id" ∷ "read" ∷ [])
    ∷ (patch, "conversations" ∷ ":id" ∷ "preferences" ∷ [])
    ∷ []

abbrev pub sync_routes : List Route
sync_routes = (get, "sync" ∷ "conversations" ∷ []) ∷ []

abbrev pub file_routes : List Route
file_routes =
    (post, "files" ∷ "upload-token" ∷ [])
    ∷ (post, "files" ∷ "confirm" ∷ [])
    ∷ (get, "files" ∷ ":id" ∷ [])
    ∷ (get, "files" ∷ "by-conversation" ∷ ":convId" ∷ [])
    ∷ []

abbrev pub admin_routes : List Route
admin_routes =
    (get, "admin" ∷ "stats" ∷ [])
    ∷ (get, "admin" ∷ "users" ∷ [])
    ∷ (patch, "admin" ∷ "users" ∷ ":id" ∷ "status" ∷ [])
    ∷ (get, "admin" ∷ "users" ∷ ":id" ∷ "logins" ∷ [])
    ∷ (post, "admin" ∷ "users" ∷ ":id" ∷ "force-logout" ∷ [])
    ∷ (get, "admin" ∷ "account-pool" ∷ [])
    ∷ (get, "admin" ∷ "premium-numbers" ∷ [])
    ∷ (post, "admin" ∷ "premium-numbers" ∷ ":no" ∷ "grant" ∷ [])
    ∷ (post, "admin" ∷ "premium-numbers" ∷ ":no" ∷ "release" ∷ [])
    ∷ (get, "admin" ∷ "live" ∷ "rooms" ∷ [])
    ∷ (post, "admin" ∷ "live" ∷ "rooms" ∷ ":id" ∷ "force-end" ∷ [])
    ∷ (patch, "admin" ∷ "live" ∷ "rooms" ∷ ":id" ∷ "ban" ∷ [])
    ∷ (delete, "admin" ∷ "live" ∷ "rooms" ∷ ":id" ∷ [])
    ∷ (get, "admin" ∷ "live" ∷ "reports" ∷ [])
    ∷ (post, "admin" ∷ "live" ∷ "reports" ∷ ":id" ∷ "resolve" ∷ [])
    ∷ (get, "admin" ∷ "live" ∷ "patrol" ∷ [])
    ∷ (get, "admin" ∷ "live" ∷ "evidence" ∷ ":day" ∷ ":name" ∷ [])
    ∷ (get, "admin" ∷ "live" ∷ "verdicts" ∷ [])
    ∷ (post, "admin" ∷ "live" ∷ "verdicts" ∷ ":id" ∷ "label" ∷ [])
    ∷ (post, "admin" ∷ "live" ∷ "verdicts" ∷ ":id" ∷ "pin" ∷ [])
    ∷ []

abbrev pub search_routes : List Route
search_routes = (get, "search" ∷ "messages" ∷ []) ∷ []

abbrev pub live_routes : List Route
live_routes =
    (get, "live" ∷ "rooms" ∷ [])
    ∷ (get, "live" ∷ "scheduled" ∷ [])
    ∷ (get, "live" ∷ "rooms" ∷ ":id" ∷ [])
    ∷ (get, "live" ∷ "rooms" ∷ ":id" ∷ "recordings" ∷ [])
    ∷ (get, "live" ∷ "rooms" ∷ ":id" ∷ "danmaku" ∷ [])
    ∷ (get, "live" ∷ "rooms" ∷ ":id" ∷ "viewers" ∷ [])
    ∷ (post, "live" ∷ "rooms" ∷ [])
    ∷ (get, "live" ∷ "rooms" ∷ ":id" ∷ "owner" ∷ [])
    ∷ (patch, "live" ∷ "rooms" ∷ ":id" ∷ [])
    ∷ (patch, "live" ∷ "rooms" ∷ ":id" ∷ "visibility" ∷ [])
    ∷ (patch, "live" ∷ "rooms" ∷ ":id" ∷ "schedule" ∷ [])
    ∷ (post, "live" ∷ "rooms" ∷ ":id" ∷ "rotate-key" ∷ [])
    ∷ (post, "live" ∷ "rooms" ∷ ":id" ∷ "stop" ∷ [])
    ∷ (patch, "live" ∷ "rooms" ∷ ":id" ∷ "chat-settings" ∷ [])
    ∷ (post, "live" ∷ "rooms" ∷ ":id" ∷ "pin-danmaku" ∷ [])
    ∷ (delete, "live" ∷ "rooms" ∷ ":id" ∷ "pin-danmaku" ∷ [])
    ∷ (delete, "live" ∷ "rooms" ∷ ":id" ∷ [])
    ∷ (get, "live" ∷ "mine" ∷ [])
    ∷ (post, "live" ∷ "rooms" ∷ ":id" ∷ "follow" ∷ [])
    ∷ (delete, "live" ∷ "rooms" ∷ ":id" ∷ "follow" ∷ [])
    ∷ (get, "live" ∷ "rooms" ∷ ":id" ∷ "follow" ∷ [])
    ∷ (post, "live" ∷ "rooms" ∷ ":id" ∷ "bans" ∷ [])
    ∷ (delete, "live" ∷ "rooms" ∷ ":id" ∷ "bans" ∷ ":userId" ∷ [])
    ∷ (post, "live" ∷ "rooms" ∷ ":id" ∷ "report" ∷ [])
    ∷ (delete, "live" ∷ "recordings" ∷ ":recId" ∷ [])
    ∷ (post, "live" ∷ "srs-hook" ∷ ":secret" ∷ [])
    ∷ (get, "live" ∷ "play-auth" ∷ [])
    ∷ (get, "live" ∷ "play-m3u8" ∷ [])
    ∷ []

abbrev pub turn_routes : List Route
turn_routes = (get, "turn" ∷ "credentials" ∷ []) ∷ []

-- cmd/api/main.go: the routes outside and what is registered under /api/v1
abbrev pub root_routes : List Route
root_routes = (get, "healthz" ∷ []) ∷ (get, "metrics" ∷ []) ∷ (get, "ws" ∷ []) ∷ []

unfoldable pub routes : List Route
routes =
    root_routes
    ++ map (λ r. (r.0, v1 r.1))
        (auth_routes ++ user_routes ++ friend_routes ++ group_routes ++ channel_routes
          ++ message_routes ++ sync_routes ++ file_routes ++ admin_routes ++ search_routes
          ++ live_routes ++ turn_routes)

abbrev pub is_method : Method → Method → Bool
is_method get get = true
is_method post post = true
is_method patch patch = true
is_method delete delete = true
is_method _ _ = false

abbrev pub is_param : String → Bool
is_param String.[] = false
is_param (String.◌∷◌ c s) = nat_eq (code c) b':'

unfoldable pub same_length : List String → List String → Bool
same_length [] [] = true
same_length [] (s ∷ ss) = false
same_length (p ∷ ps) [] = false
same_length (p ∷ ps) (s ∷ ss) = same_length ps ss

-- each segment fits its place
unfoldable pub matches : List String → List String → Bool
matches [] ss = true
matches (p ∷ ps) [] = false
matches (p ∷ ps) (s ∷ ss) =
    let rest = matches ps ss in (if is_param p then not (is_blank s) else p == s) && rest

-- whether a handler takes the request to the path
unfoldable pub is_served : Method → List String → Bool
is_served m path = any (λ r. is_method r.0 m && (same_length r.1 path && matches r.1 path)) routes
