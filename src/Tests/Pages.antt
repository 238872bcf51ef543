-- ===== src/Tests/Pages.antt =====
-- Events at the main page with a muted conversation.
use dfchat.Common.{refl, true, some, List, [], ◌∷◌}
use dfchat.Notify.{Surroundings}
use dfchat.Home.{Page, ServerEvent, received, deleted}
use dfchat.Home.Muted
use dfchat.Tests.Stores.{message, new_client, no_chat, dates}

abbrev env : Surroundings
env = record { focused = true; sound_enabled = true; electron = true; granted = true; now = 90000 }

abbrev page : Page
page = record {
  client = record new_client { chat = record no_chat { muted_convs = "c_5" ∷ [] } };
  pending_at = [];
}

abbrev events : List ServerEvent
events =
    received env (message "a" "c_5" 1)
    ∷ deleted 9000000001 "c_5" "a"
    ∷ received env (message "b" "p_1_7" 1)
    ∷ received env (message "c" "c_5" 2)
    ∷ []

on_event-IsQuiet_example : Muted.IsQuiet (λ a b. true) dates (some "1") "c_5" events page
on_event-IsQuiet_example =
    Muted.on_event-IsQuiet (λ a b. true) dates (some "1") "c_5" events page refl
