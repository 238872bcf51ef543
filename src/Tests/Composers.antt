-- ===== src/Tests/Composers.antt =====
-- Runs of the text field and of the typing signals of the chat view.
use dfchat.Common.{String, ◌≡◌, refl, true, false, none, some, List, [], ◌∷◌, arith}
use dfchat.Common.Dict.{Dict, get}
use dfchat.Tests.Stores.{message, new_client, dates}
use dfchat.View.Opening.{Context, with_friend, in_channel}
use dfchat.View.Text.{word, handles, ids_of, extract_mentions}
use dfchat.View.Compose.{Composer, failed}
use dfchat.View.Drafts
use dfchat.View.Drafts.{Action, run, last_typed}
use dfchat.View.Typing.{typing_start, sweep}
use dfchat.View.Heard
use dfchat.View.Heard.{Event, fresh, last_said}
use dfchat.View.Throttle
use dfchat.View.Throttle.{Touch, IsThrottled, pings}

abbrev small : String → String
small s = s

abbrev names : Dict String
names = ("bo", "8") ∷ ("ann", "9") ∷ []

abbrev with_ann : Context
with_ann = record { title = "ann"; avatar_name = "ann"; conv_id = "p_7_9"; place = with_friend "9" }

abbrev in_news : Context
in_news = record {
  title = "#news";
  avatar_name = "town";
  conv_id = "c_5";
  place = in_channel "3" "5";
}

abbrev composing : Composer
composing = record {
  draft = " hi @ann, @bo and @ann ";
  error = none;
  sending = false;
  uploading = none;
  replying_to = none;
  editing_id = none;
  editing_draft = "";
  menu_for = none;
  client = new_client;
  requests = [];
}

abbrev offline : List Action
offline =
    Action.press_send (some with_ann)
    ∷ Action.type_text "again"
    ∷ Action.sent (failed none)
    ∷ Action.click_delete true (message "a" "p_7_9" 1)
    ∷ Action.deleted (message "a" "p_7_9" 1) (failed (some "offline"))
    ∷ []

run-failed_example :
    ((run small names dates 0 offline composing).client ≡ new_client)
    × ((run small names dates 0 offline composing).draft ≡ "again")
run-failed_example = Drafts.run-failed small names dates 0 offline composing refl

mentioned : extract_mentions small names composing.draft ≡ "9" ∷ "8" ∷ []
unfolding ids_of handles word get
mentioned = refl

abbrev heard_events : List Event
heard_events =
    Event.heard 1000 (record { signal = typing_start; conversation_id = "p_7_9"; sender_id = "9" })
    ∷ Event.swept 1500
    ∷ Event.heard 4000
        (record { signal = typing_start; conversation_id = "p_7_9"; sender_id = "9" })
    ∷ Event.swept 7500
    ∷ []

get-sweep-run_example :
    get "9" (sweep 8000 (Heard.run "p_7_9" heard_events []))
    ≡ fresh 8000 (last_said "p_7_9" "9" heard_events none)
get-sweep-run_example =
    Heard.get-sweep-run "p_7_9" "9" 0 8000 heard_events
      (omega arith, (omega arith, (omega arith, (omega arith, omega arith))))

abbrev touches : List Touch
touches =
    Touch.key 10000 (some with_ann)
    ∷ Touch.key 11000 (some with_ann)
    ∷ Touch.blur 11500 (some with_ann)
    ∷ Touch.key 12000 (some with_ann)
    ∷ Touch.key 16000 (some in_news)
    ∷ []

pings-IsThrottled_example : IsThrottled 0 (pings touches 0)
pings-IsThrottled_example = Throttle.pings-IsThrottled touches 0
