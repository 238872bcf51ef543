-- ===== src/Api/Served/Messages.antt =====
-- client/src/api/client.ts: the requests of messages and conversations have a handler.
use dfchat.Common.{ℕ, String, Bool, true, Option, ◌≡◌, refl, inl, inr, Bool-cases}
use dfchat.Markdown.Inline.{is_blank}
use dfchat.View.Text.{trim}
use dfchat.Api.Url.{is_segment}
use dfchat.Api.Routes.{is_served, routes, matches}
use dfchat.Api.Calls.{messages_requests}
use dfchat.Api.Messages.{SendBody}
use dfchat.Api.Messages.{
  set_conversation_preferences, list_conversation_files, list_messages, list_messages_after,
  list_messages_around, request_upload_token, confirm_upload, sync_conversations, recall_message,
  edit_message, delete_message, add_reaction, remove_reaction, pin_message, unpin_message,
  list_pins, mark_read, post_message, search_messages,
}
use dfchat.Api.Served.{AreServed, AreServed-routed, encoded_lem}
use dfchat.Api.Routes.{same_length}

pub messages_requests-AreServed :
    (a : String) (d : String) (t : String) (o : Option String) (n : ℕ) (b : Bool) (body : SendBody)
    → is_segment a ≡ true
    → is_segment d ≡ true
    → AreServed (messages_requests a d t o n b body)
unfolding messages_requests is_served routes matches same_length set_conversation_preferences
    list_conversation_files list_messages list_messages_after list_messages_around
    request_upload_token confirm_upload sync_conversations recall_message edit_message
    delete_message add_reaction remove_reaction pin_message unpin_message list_pins mark_read
    post_message search_messages
messages_requests-AreServed String.[] d t o n b body ha hd = absurd (cc ha)
messages_requests-AreServed (String.◌∷◌ c s) String.[] t o n b body ha hd = absurd (cc hd)
messages_requests-AreServed (String.◌∷◌ c s) (String.◌∷◌ e u) t o n b body ha hd =
    let ea = encoded_lem (String.◌∷◌ c s) ha in
    let ed = encoded_lem (String.◌∷◌ e u) hd in
    AreServed-routed (messages_requests (String.◌∷◌ c s) (String.◌∷◌ e u) t o n b body)
      (elim (Bool-cases (is_blank (trim t))) [
        | inl h ↦ rw (h, ha, ea.0, ea.1, ed.0, ed.1) refl
        | inr h ↦ rw (h, ha, ea.0, ea.1, ed.0, ed.1) refl
      ])
