-- ===== src/Api/Friends.antt =====
-- client/src/api/client.ts: the requests of friends, requests and blocked users.
use dfchat.Common.{String, [], ◌∷◌}
use dfchat.Api.{
  text, object, fields, post, delete, Endpoint, whole, items, nothing, getting, with_body, bare,
}

-- `listFriends`
unfoldable pub list_friends : Endpoint
list_friends = getting ("friends" ∷ []) [] (items "friends")

-- `addFriend`
unfoldable pub add_friend : (username : String) → Endpoint
add_friend username =
    with_body post ("friends" ∷ "requests" ∷ []) (("username", text username) ∷ []) whole

-- `acceptFriendRequest`
unfoldable pub accept_friend_request : (from_user_id : String) → Endpoint
accept_friend_request from_user_id =
    bare post ("friends" ∷ "requests" ∷ from_user_id ∷ "accept" ∷ []) nothing

-- `dropFriendRequest`
unfoldable pub drop_friend_request : (other_user_id : String) → Endpoint
drop_friend_request other_user_id =
    bare delete ("friends" ∷ "requests" ∷ other_user_id ∷ []) nothing

-- `blockUser`
unfoldable pub block_user : (user_id : String) → Endpoint
block_user user_id = bare post ("friends" ∷ "blocked" ∷ user_id ∷ []) nothing

-- `unblockUser`
unfoldable pub unblock_user : (user_id : String) → Endpoint
unblock_user user_id = bare delete ("friends" ∷ "blocked" ∷ user_id ∷ []) nothing

-- `listBlockedUsers`
unfoldable pub list_blocked_users : Endpoint
list_blocked_users = getting ("friends" ∷ "blocked" ∷ []) [] (items "blocked")

-- `listFriendRequests`
unfoldable pub list_friend_requests : Endpoint
list_friend_requests = getting ("friends" ∷ "requests" ∷ []) [] (λ o.
    object (fields (("incoming", items "incoming" o) ∷ ("outgoing", items "outgoing" o) ∷ [])))
