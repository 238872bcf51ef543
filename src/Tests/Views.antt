-- ===== src/Tests/Views.antt =====
-- Runs of the chat view: the laid-out messages, a click on a reaction, an opened conversation.
use dfchat.Common.{
  true, ℕ, String, ◌≡◌, refl, not, ◌&&◌, none, some, List, [], ◌∷◌, map, nat_eq, if◌then◌else◌,
  ◌==◌, find, is_some,
}
use dfchat.Types.{ChatMessage, ReactionCount}
use dfchat.Chat.{Client, set_conv}
use dfchat.Chat.Messages.{is_id}
use dfchat.Chat.Effects.{AllUnique}
use dfchat.Chat.Runs
use dfchat.Chat.Authority.{shown}
use dfchat.Tests.Stores.{message, new_client, new_client-IsSound}
use dfchat.View.Render.{Calendar}
use dfchat.View.Laid
use dfchat.View.Reactions.{toggle}
use dfchat.View.Tally.{IsTally, reacted}
use dfchat.View.Toggle
use dfchat.View.Opening.{from_archived, enter, on_archive_rows, on_server_messages}
use dfchat.View.Bubbles.{last_own_message_id}
use dfchat.View.Stale

abbrev clocks : Calendar
clocks = record {
  time = λ t. if t == "recent" then some 9000000000 else none;
  day = λ t. if t == "recent" then some 104 else none;
}

abbrev seen_messages : List ChatMessage
seen_messages =
    message "a" "c_5" 1
    ∷ message "b" "c_5" 2
    ∷ record (message "c" "c_5" 3) { created_at = "x" }
    ∷ []

abbrev two_reactions : List ReactionCount
two_reactions =
    record { emoji = "👍"; count = 2; user_ids = some (7 ∷ 9 ∷ []) }
    ∷ record { emoji = "🎉"; count = 1; user_ids = some (7 ∷ []) }
    ∷ []

two_reactions-IsTally : IsTally two_reactions
two_reactions-IsTally =
    ((refl, (refl, (refl, tt)), refl), refl, ((refl, (refl, tt), refl), refl, tt))

toggle-IsTally_example :
    IsTally (toggle 7 "🎉" two_reactions)
    × ((u : ℕ) (j : String)
        → reacted u j (toggle 7 "🎉" two_reactions) ≡ (
            if ("🎉" == j) && nat_eq u 7
            then not (reacted 7 "🎉" two_reactions)
            else reacted u j two_reactions))
toggle-IsTally_example = Toggle.toggle-IsTally 7 "🎉" two_reactions two_reactions-IsTally

abbrev before_edit : Client
before_edit = set_conv "c_5" (message "a" "c_5" 1 ∷ []) new_client

before_edit-AllUnique : AllUnique before_edit
before_edit-AllUnique =
    Runs.set_conv-AllUnique "c_5" (message "a" "c_5" 1 ∷ []) new_client new_client refl (refl, tt)
      new_client-IsSound.unique

abbrev edited : ChatMessage
edited = record (message "a" "c_5" 1) { edit_count = some 1 }

shown-opened_example :
    let archived = find (is_id "a") (map from_archived []) in
    let served = find (is_id "a") (edited ∷ []) in
    let entered = enter "c_5" before_edit in
    (shown "c_5" "a"
        (on_server_messages "c_5" (some (edited ∷ [])) (on_archive_rows "c_5" (some []) entered))
      ≡ (if is_some (shown "c_5" "a" before_edit)
          then shown "c_5" "a" before_edit
          else if is_some archived
          then archived
          else served))
    × (shown "c_5" "a"
          (on_archive_rows "c_5" (some []) (on_server_messages "c_5" (some (edited ∷ [])) entered))
        ≡ (if is_some (shown "c_5" "a" before_edit)
            then shown "c_5" "a" before_edit
            else if is_some served
            then served
            else archived))
unfolding set_conv
shown-opened_example =
    Stale.shown-opened "c_5" "a" (some []) (some (edited ∷ [])) before_edit before_edit-AllUnique
      refl

abbrev own_messages : List ChatMessage
own_messages =
    message "a" "p_7_9" 1
    ∷ message "b" "p_7_9" 2
    ∷ record (message "c" "p_7_9" 3) { is_recalled = true }
    ∷ []

last_own : last_own_message_id (some "7") own_messages ≡ some "b"
unfolding last_own_message_id
last_own = refl
