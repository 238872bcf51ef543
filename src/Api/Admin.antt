-- ===== src/Api/Admin.antt =====
-- client/src/api/client.ts: the requests of administration.
use dfchat.Common.{ℕ, String, Bool, true, Option, some, [], ◌∷◌, ◌or_else◌}
use dfchat.Markdown.Inline.{strip}
use dfchat.Api.{
  set_text, set_number, Json, undefined, text, number, flag, object, fields, optional,
  optional_number, post, patch, delete, Endpoint, value, whole, items, or_default, nothing, getting,
  with_body, bare,
}

-- `adminStats`
unfoldable pub admin_stats : Endpoint
admin_stats = getting ("admin" ∷ "stats" ∷ []) [] whole

-- `adminAccountPoolStats`
unfoldable pub admin_account_pool_stats : Endpoint
admin_account_pool_stats = getting ("admin" ∷ "account-pool" ∷ []) [] (items "segments")

-- `adminListUsers`
unfoldable pub admin_list_users :
    (search : Option String) → (limit offset : Option ℕ) → (ip : Option String) → Endpoint
admin_list_users search limit offset ip =
    getting ("admin" ∷ "users" ∷ [])
      (("search", optional search)
        ∷ ("limit", optional_number limit)
        ∷ ("offset", optional_number offset)
        ∷ ("ip", optional ip)
        ∷ [])
      (items "users")

-- `adminSetUserStatus`
unfoldable pub admin_set_user_status : (user_id : String) → (status : ℕ) → Endpoint
admin_set_user_status user_id status =
    with_body patch ("admin" ∷ "users" ∷ user_id ∷ "status" ∷ []) (("status", number status) ∷ [])
      nothing

-- `adminUserLogins`
unfoldable pub admin_user_logins : (user_id : String) → (limit : ℕ) → Endpoint
admin_user_logins user_id limit =
    getting ("admin" ∷ "users" ∷ user_id ∷ "logins" ∷ []) (("limit", number limit) ∷ [])
      (items "logs")

-- `adminForceLogoutUser`
unfoldable pub admin_force_logout_user : (user_id : String) → Endpoint
admin_force_logout_user user_id =
    bare post ("admin" ∷ "users" ∷ user_id ∷ "force-logout" ∷ []) whole

-- `adminListPremiumNumbers`
unfoldable pub admin_list_premium_numbers : (segment : Option ℕ) → (limit : ℕ) → Endpoint
admin_list_premium_numbers segment limit =
    getting ("admin" ∷ "premium-numbers" ∷ [])
      (("segment", optional_number segment) ∷ ("limit", number limit) ∷ []) (items "numbers")

-- `adminGrantPremiumNumber`
unfoldable pub admin_grant_premium_number : (premium_no user_account_no : String) → Endpoint
admin_grant_premium_number premium_no user_account_no =
    with_body post ("admin" ∷ "premium-numbers" ∷ premium_no ∷ "grant" ∷ [])
      (("userAccountNo", text user_account_no) ∷ []) whole

-- `adminReleasePremiumNumber`
unfoldable pub admin_release_premium_number : (premium_no : String) → Endpoint
admin_release_premium_number premium_no =
    bare post ("admin" ∷ "premium-numbers" ∷ premium_no ∷ "release" ∷ []) nothing

-- `adminListLiveRooms`
unfoldable pub admin_list_live_rooms : (status : Option String) → Endpoint
admin_list_live_rooms status =
    getting ("admin" ∷ "live" ∷ "rooms" ∷ []) (("status", optional status) ∷ []) (items "rooms")

-- `adminForceEndLive`
unfoldable pub admin_force_end_live : (id : String) → Endpoint
admin_force_end_live id = bare post ("admin" ∷ "live" ∷ "rooms" ∷ id ∷ "force-end" ∷ []) nothing

-- `adminBanLiveRoom`
unfoldable pub admin_ban_live_room :
    (id : String) → (banned : Bool) → (reason : Option String) → Endpoint
admin_ban_live_room id banned reason =
    with_body patch ("admin" ∷ "live" ∷ "rooms" ∷ id ∷ "ban" ∷ [])
      (("banned", flag banned) ∷ ("reason", optional reason) ∷ []) nothing

-- `adminDeleteLiveRoom`
unfoldable pub admin_delete_live_room : (id : String) → Endpoint
admin_delete_live_room id = bare delete ("admin" ∷ "live" ∷ "rooms" ∷ id ∷ []) nothing

-- `adminResolveLiveReport`
unfoldable pub admin_resolve_live_report :
    (id : String) → (status : ℕ) → (action : String) → Endpoint
admin_resolve_live_report id status action =
    with_body post ("admin" ∷ "live" ∷ "reports" ∷ id ∷ "resolve" ∷ [])
      (("status", number status) ∷ ("action", text action) ∷ []) nothing

-- `adminListLivePatrol`
unfoldable pub admin_list_live_patrol : Endpoint
admin_list_live_patrol = getting ("admin" ∷ "live" ∷ "patrol" ∷ []) [] (items "rooms")

-- `adminLabelLiveVerdict`
unfoldable pub admin_label_live_verdict : (id label : String) → (note : Option String) → Endpoint
admin_label_live_verdict id label note =
    with_body post ("admin" ∷ "live" ∷ "verdicts" ∷ id ∷ "label" ∷ [])
      (("label", text label) ∷ ("note", optional note) ∷ []) nothing

-- `adminPinLiveVerdict`
unfoldable pub admin_pin_live_verdict : (id : String) → (pinned : Bool) → Endpoint
admin_pin_live_verdict id pinned =
    with_body post ("admin" ∷ "live" ∷ "verdicts" ∷ id ∷ "pin" ∷ []) (("pinned", flag pinned) ∷ [])
      nothing

-- `adminListLiveReports`
unfoldable pub admin_list_live_reports : (status : ℕ) → Endpoint
admin_list_live_reports status =
    getting ("admin" ∷ "live" ∷ "reports" ∷ []) (("status", number status) ∷ []) (λ o. object (
      fields (
        ("reports", items "reports" o)
        ∷ ("pending", or_default (number 0) (value "pending" o))
        ∷ [])))

-- `adminListLiveVerdicts`
abbrev set_flag : Option Bool → Json
set_flag (some true) = number 1
set_flag _ = undefined

unfoldable pub admin_list_live_verdicts :
    (room_id : Option String) (flagged unlabeled : Option Bool) (limit : Option ℕ) → Endpoint
admin_list_live_verdicts room_id flagged unlabeled limit =
    getting ("admin" ∷ "live" ∷ "verdicts" ∷ [])
      (("roomId", set_text room_id)
        ∷ ("flagged", set_flag flagged)
        ∷ ("unlabeled", set_flag unlabeled)
        ∷ ("limit", set_number limit)
        ∷ [])
      (items "verdicts")

-- `adminFetchEvidenceBlobURL`: the path that it asks for
unfoldable pub evidence_path : (api_path : String) → String
evidence_path api_path = strip "/api/v1" api_path or_else api_path
