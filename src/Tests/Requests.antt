-- ===== src/Tests/Requests.antt =====
-- Requests that fail, and two versions.
use dfchat.Common.{refl, false, none, some, List, [], ◌∷◌}
use dfchat.Seq.{absent}
use dfchat.Session.{Session, Event, fails, cleared, bounced, signs_in, idle, on_refreshed}
use dfchat.Session.Retry
use dfchat.Session.Stuck
use dfchat.Updates.Order
use dfchat.Updates.{compare_semver}

abbrev expired : Session
expired = record {
  access_token = some "old";
  refresh_token = some "r1";
  stored_last = absent;
  stored_read = absent;
  session_bounce_pending = false;
  bounces = 0;
  refresh_in_flight = idle;
  waiting = [];
  asked = 0;
  outcomes = [];
}

on_refreshed-fail_all_example :
    Retry.AreRetried "new" "r2"
      (1 ∷ 2 ∷ [])
      expired
      (on_refreshed (some ("new", "r2")) "/" (Retry.fail_all "/" (1 ∷ 2 ∷ []) expired))
on_refreshed-fail_all_example =
    Retry.on_refreshed-fail_all 1 (2 ∷ []) "/" "/" "new" "r2" expired refl refl refl

-- The user signs in again after the bounce, and the next access token expires.
abbrev later : List Event
later =
    bounced
    ∷ cleared
    ∷ signs_in "a2" (some "r2")
    ∷ fails 401 (record { id = 5; retried = false; is_auth_call = false }) "/"
    ∷ []

abbrev without_token : Session
without_token = record expired { refresh_token = none }

compare_semver-Tells_example :
    Order.Tells
      (compare_semver (1 ∷ 10 ∷ []) (1 ∷ 9 ∷ 3 ∷ []))
      (Order.part (1 ∷ 10 ∷ []))
      (Order.part (1 ∷ 9 ∷ 3 ∷ []))
compare_semver-Tells_example = Order.compare_semver-Tells (1 ∷ 10 ∷ []) (1 ∷ 9 ∷ 3 ∷ [])
