-- ===== src/Tests/Api.antt =====
-- The requests for two ids and one message, and the answer of a call that fails.
use dfchat.Common.{◌≡◌, refl, true, false, none, some, [], ◌∷◌, inr}
use dfchat.Api.{get, v1, end, field, text, number, call, value, unwrap_error, is_truthy}
use dfchat.Api.Url.{segments, print_path}
use dfchat.Api.Encode.{encode_uri_component, percent, percents, first_byte, later_bytes, nth_digit}
use dfchat.Api.Routes.{is_served}
use dfchat.Api.Accounts.{fetch_me}
use dfchat.Api.Messages.{SendBody}
use dfchat.Api.Admin.{evidence_path}
use dfchat.Api.Calls.{
  accounts_requests, session_requests, friends_requests, groups_requests, messages_requests,
  rooms_requests, broadcasts_requests, admin_requests,
}
use dfchat.Api.Served.{AreServed}
use dfchat.Api.Served.Client
use dfchat.Api.Served.Client.{evidence}

abbrev a_body : SendBody
a_body = record {
  to = some "8";
  group_id = none;
  channel_id = none;
  type = "text";
  content = ("text", text "hello") ∷ [];
  mentions = none;
  reply_to = some "77";
}

requests-AreServed_example :
    (AreServed (accounts_requests "7" "ann" none)
      × AreServed (session_requests "ann")
      × AreServed (friends_requests "7" "ann")
      × AreServed (groups_requests "7" "👍" "ann" none 1 none ("3" ∷ []))
      × AreServed (messages_requests "7" "👍" "ann" none 1 true a_body)
      × AreServed (rooms_requests "7" "ann" none none true)
      × AreServed (broadcasts_requests "7" "👍" "ann" none 1 none none true)
      × AreServed (admin_requests "7" "ann" none 1 none none true))
    × (is_served get (segments (evidence_path (print_path (v1 (evidence "7" "👍"))))) ≡ false)
requests-AreServed_example =
    Client.requests-AreServed "7" "👍" "ann" none 1 none none true ("3" ∷ []) a_body refl refl

encoded :
    (encode_uri_component "p_1_2" ≡ "p_1_2")
    × (encode_uri_component "👍/é" ≡ "%F0%9F%91%8D%2F%C3%A9")
unfolding encode_uri_component percents percent first_byte later_bytes nth_digit
encoded = (refl, refl)

failed_calls :
    (call fetch_me (
        inr (record {
          response = some (field "code" (number 4) (field "message" (text "gone") end));
          message = "status 404";
        }))
      ≡ inr (record { code = some (number 4); message = text "gone" }))
    × (call fetch_me (inr (record { response = none; message = "" }))
        ≡ inr (record { code = none; message = text "network error" }))
unfolding call unwrap_error value is_truthy
failed_calls = (refl, refl)
