-- ===== src/Home/Muted.antt =====
-- A muted conversation in client/src/pages/Home.tsx.
use dfchat.Common.{
  ℕ, String, ◌≡◌, refl, ap, ◌∙◌, ◌or_else◌, Bool, true, false, Option, none, some, List, [], ◌∷◌,
  arith, eq_iff, ◌==◌,
}
use dfchat.Types.{ChatMessage, ReactionCount}
use dfchat.Chat.{Client, ParseDate, cache_messages, archive_append, archive_remove, set_conv}
use dfchat.Chat.Messages.{
  append_message, write_at_id, replace_message, remove_message, apply_reaction_update,
}
use dfchat.Chat.Marks.{is_in, bump_unread, remove_pin, set_pins, set_peer_read}
use dfchat.Notify.{silent, nowhere}
use dfchat.Home.{
  Page, ServerEvent, received, recalled, edited, deleted, reacted, pinned, unpinned, was_read,
  notify_allowed, on_recv, on_event,
}

-- whether the event is a message of the conversation
abbrev pub concerns : String → ServerEvent → Bool
concerns conv (received env msg) = msg.conversation_id == conv
concerns conv _ = false

abbrev pub muted : Client → List String
muted c = c.chat.muted_convs

muted-append_message : (m : ChatMessage) (c : Client) → muted (append_message m c) ≡ muted c
unfolding append_message archive_append set_conv cache_messages
muted-append_message m c = ground arith

muted-replace_message :
    (d : ParseDate) (now : ℕ) (m : ChatMessage) (c : Client)
    → muted (replace_message d now m c) ≡ muted c
unfolding replace_message archive_append write_at_id set_conv cache_messages
muted-replace_message d now m c = ground arith

muted-remove_message :
    (d : ParseDate) (now : ℕ) (k id : String) (c : Client)
    → muted (remove_message d now k id c) ≡ muted c
unfolding remove_message archive_remove set_conv cache_messages
muted-remove_message d now k id c = ground arith

muted-apply_reaction_update :
    (k id : String) (rs : List ReactionCount) (c : Client)
    → muted (apply_reaction_update k id rs c) ≡ muted c
unfolding apply_reaction_update write_at_id set_conv cache_messages
muted-apply_reaction_update k id rs c = ground arith

module _ (before : String → String → Bool) (d : ParseDate) (me : Option String) where
  muted-on_event :
      (e : ServerEvent) (p : Page) → muted (on_event before d me e p).0.client ≡ muted p.client
  unfolding on_event on_recv bump_unread set_pins remove_pin set_peer_read
  muted-on_event (received env msg) p = ground (arith, muted-append_message msg p.client)
  muted-on_event (recalled now msg) p = muted-replace_message d now msg p.client
  muted-on_event (edited now msg) p = muted-replace_message d now msg p.client
  muted-on_event (deleted now k id) p = muted-remove_message d now k id p.client
  muted-on_event (reacted k id rs) p = muted-apply_reaction_update k id (rs or_else []) p.client
  muted-on_event (pinned k none) p = refl
  muted-on_event (pinned k (some pins)) p = refl
  muted-on_event (unpinned k id) p = ground arith
  muted-on_event (was_read k user seq) p = ground arith

  -- The events of messages of the conversation announce nothing.
  abbrev pub IsQuiet : String → List ServerEvent → Page → Type 0
  IsQuiet conv [] p = Unit {0}
  IsQuiet conv (e ∷ es) p =
      (concerns conv e ≡ true → (on_event before d me e p).1 ≡ (silent, nowhere))
      × IsQuiet conv es (on_event before d me e p).0

  quiet-on_event :
      (conv : String) (e : ServerEvent) (p : Page)
      → is_in conv (muted p.client) ≡ true
      → concerns conv e ≡ true
      → (on_event before d me e p).1 ≡ (silent, nowhere)
  unfolding on_event on_recv notify_allowed
  quiet-on_event conv (received env msg) p h mine =
      ground (arith, eq_iff msg.conversation_id conv, muted-append_message msg p.client, h, mine)
  quiet-on_event conv (recalled now msg) p h mine = refl
  quiet-on_event conv (edited now msg) p h mine = refl
  quiet-on_event conv (deleted now k id) p h mine = refl
  quiet-on_event conv (reacted k id rs) p h mine = refl
  quiet-on_event conv (pinned k none) p h mine = refl
  quiet-on_event conv (pinned k (some pins)) p h mine = refl
  quiet-on_event conv (unpinned k id) p h mine = refl
  quiet-on_event conv (was_read k user seq) p h mine = refl

  -- As long as a conversation is muted, no message that comes in for it is announced, neither by a
  -- sound nor by a banner, whatever events come in whatever order in between.
  pub on_event-IsQuiet :
      (conv : String) (es : List ServerEvent) (p : Page)
      → is_in conv (muted p.client) ≡ true
      → IsQuiet conv es p
  on_event-IsQuiet conv [] p h = tt
  on_event-IsQuiet conv (e ∷ es) p h = (
    λ mine. quiet-on_event conv e p h mine,
    on_event-IsQuiet conv es (on_event before d me e p).0
        (ap (is_in conv) (muted-on_event e p) ∙ h),
  )
