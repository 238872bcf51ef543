-- ===== src/Home.antt =====
-- client/src/pages/Home.tsx: what the main page does with the events of the server that change the
-- chat store, the badge, and the way from a conversation id to a target. `me` is the user's id.
pub mod Muted
use Prim.Native.Char.{code}
use Prim.Native.String
use Prim.Native.String.{◌++◌}
use package.text.Mathlib.Text.{starts_with}
use dfchat.Common.{
  ℕ, zero, suc, ◌+◌, ◌-◌, String, Bool, true, false, not, ◌&&◌, ◌||◌, Option, none, some, List, [],
  ◌∷◌, map, nat_eq, if◌then◌else◌, ◌or_else◌, ◌==◌, any, find, keep, is_some,
}
use dfchat.Common.Dict.{Dict, get, put, keys}
use dfchat.Types.{ChatMessage, ReactionCount, Friend, Group, Channel, Pin}
use dfchat.Seq.{SeqMap}
use dfchat.Chat.{Client, ChatState, ChatTarget, friend, channel, ParseDate}
use dfchat.Chat.Messages.{append_message, replace_message, remove_message, apply_reaction_update}
use dfchat.Chat.Marks.{is_in, bump_unread, remove_pin, set_pins, set_peer_read}
use dfchat.Notify.{NotifyMeta, Surroundings, Announcement, silent, nowhere, maybe_notify}

-- The client with the debounce map of the notifications.
pub record Page : Type 0 where
  pub client : Client
  pub pending_at : Dict ℕ

-- `s.slice(2)`, for a text that starts with two characters of one code unit
abbrev pub after_prefix : String → String
after_prefix (String.◌∷◌ a (String.◌∷◌ b s)) = s
after_prefix s = ""

-- The group with a channel of the id, and the channel: the loop over Object.entries that stops at the
-- first. A channel is in one group, so the order of the entries does not matter.
unfoldable pub find_channel : String → Dict (List Channel) → Option (String × Channel)
find_channel channel_id [] = none
find_channel channel_id ((gid, chs) ∷ rest) = elim (find (λ ch. ch.id == channel_id) chs) [
  | some ch ↦ some (gid, ch)
  | none ↦ find_channel channel_id rest
]

abbrev pub is_channel : ChatMessage → Bool
is_channel msg = starts_with msg.conversation_id "c_"

unfoldable pub owning_group_id : ChatMessage → ChatState → Option String
unfolding find_channel
owning_group_id msg s =
    let id = after_prefix msg.conversation_id in
    if starts_with msg.conversation_id "g_"
    then some id
    else (if is_channel msg
        then elim (find_channel id s.channels_by_group) [ none ↦ none | some found ↦ some found.0 ]
        else none)

abbrev pub is_mentioned : Option String → ChatMessage → Bool
is_mentioned none msg = false
is_mentioned (some me) msg = any (λ id. id == me) (msg.mentions or_else [])

-- `notifyAllowed`, with the modes 1 (mentions only) and 2 (none) of the owning group
unfoldable pub notify_allowed : Option String → ChatMessage → ChatState → Bool
notify_allowed me msg s =
    let mode : ℕ = elim (owning_group_id msg s) [
      | none ↦ 0
      | some gid ↦ if is_some me then get gid s.group_notify_modes or_else 0 else 0
    ] in
    not (is_in msg.conversation_id s.muted_convs)
    && (not (nat_eq mode 2) && (not (nat_eq mode 1) || is_mentioned me msg))

abbrev pub shown_name : Friend → String
shown_name f = if f.nickname == "" then f.username else f.nickname

unfoldable pub sender_name : ChatMessage → ChatState → String
sender_name msg s =
    let by_id = "用户 " ++ msg.sender_id in
    if is_channel msg || starts_with msg.conversation_id "p_"
    then (elim (find (λ f. f.id == msg.sender_id) s.friends) [
      | none ↦ by_id
      | some f ↦ shown_name f
    ])
    else by_id

unfoldable pub conversation_title : ChatMessage → ChatState → String
conversation_title msg s =
    let by_id = "用户 " ++ msg.sender_id in
    if is_channel msg
    then (elim (find_channel (after_prefix msg.conversation_id) s.channels_by_group) [
      | none ↦ by_id
      | some (gid, ch) ↦ elim (find (λ g. g.id == gid) s.groups) [
        | some g ↦ g.name ++ " · #" ++ ch.name
        | none ↦ "#" ++ ch.name
      ]
    ])
    else (if starts_with msg.conversation_id "p_" then sender_name msg s else by_id)

-- `before` is BigInt(a) < BigInt(b).
module _ (before : String → String → Bool) where
  -- `privateConvId` of client/src/api/client.ts
  abbrev pub private_conv_id : String → String → String
  private_conv_id a b = if before a b then "p_" ++ a ++ "_" ++ b else "p_" ++ b ++ "_" ++ a

  unfoldable pub active_conv_id : Option String → Option ChatTarget → Option String
  active_conv_id me none = none
  active_conv_id none (some (friend id)) = none
  active_conv_id (some me) (some (friend id)) = some (private_conv_id me id)
  active_conv_id me (some (channel group_id channel_id)) = some ("c_" ++ channel_id)

  -- 'chat.recv'
  unfoldable pub on_recv : Option String → Surroundings → ChatMessage → Page → Page × Announcement
  on_recv me env msg p0 =
      let c = append_message msg p0.client in
      let s = c.chat in
      let active = active_conv_id me s.active_target in
      let mention = is_mentioned me msg in
      let here : Bool = elim active [ none ↦ false | some id ↦ id == msg.conversation_id ] in
      let chat = if here then s else bump_unread msg.conversation_id mention s in
      let told =
        maybe_notify msg
          (record {
            sender_name = sender_name msg s;
            conversation_title = conversation_title msg s;
            active_conv_id = active;
            is_mention = mention;
          })
          env p0.pending_at in
      let own : Bool = elim me [ none ↦ false | some id ↦ msg.sender_id == id ] in
      if own
      then (record p0 { client = c }, (silent, nowhere))
      else (if notify_allowed me msg s
          then (record { client = record c { chat = chat }; pending_at = told.0 }, told.1)
          else (record p0 { client = record c { chat = chat } }, (silent, nowhere)))

-- The events of the server that change the chat store; `pinned` comes with the answer to listPins,
-- `none` for a request that throws.
pub data ServerEvent : Type 0 where
  received : Surroundings → ChatMessage → ServerEvent
  recalled edited : ℕ → ChatMessage → ServerEvent
  deleted : ℕ → (conv_id message_id : String) → ServerEvent
  reacted : (conv_id message_id : String) → Option (List ReactionCount) → ServerEvent
  pinned : (conv_id : String) → Option (List Pin) → ServerEvent
  unpinned : (conv_id message_id : String) → ServerEvent
  was_read : (conv_id user_id : String) → ℕ → ServerEvent

abbrev pub set_chat : ChatState → Page → Page
set_chat s p = record p { client = record p.client { chat = s } }

abbrev pub set_client : Client → Page → Page
set_client c p = record p { client = c }

-- The handler, and what it announces.
unfoldable pub on_event :
    (String → String → Bool) → ParseDate → Option String → ServerEvent → Page → Page × Announcement
on_event before d me (received env msg) p = on_recv before me env msg p
on_event before d me (recalled now msg) p =
    (set_client (replace_message d now msg p.client) p, (silent, nowhere))
on_event before d me (edited now msg) p =
    (set_client (replace_message d now msg p.client) p, (silent, nowhere))
on_event before d me (deleted now conv_id message_id) p =
    (set_client (remove_message d now conv_id message_id p.client) p, (silent, nowhere))
on_event before d me (reacted conv_id message_id reactions) p = (
  set_client (apply_reaction_update conv_id message_id (reactions or_else []) p.client) p,
  (silent, nowhere),
)
on_event before d me (pinned conv_id none) p = (p, (silent, nowhere))
on_event before d me (pinned conv_id (some pins)) p =
    (set_chat (set_pins conv_id pins p.client.chat) p, (silent, nowhere))
on_event before d me (unpinned conv_id message_id) p =
    (set_chat (remove_pin conv_id message_id p.client.chat) p, (silent, nowhere))
on_event before d me (was_read conv_id user_id seq) p =
    (set_chat (set_peer_read conv_id user_id seq p.client.chat) p, (silent, nowhere))

-- The parts of `s.split('_')` up to the first mark and after it, where a missing part, which is
-- `undefined` in the source, is the empty text.
unfoldable pub first_part : String → String
first_part String.[] = ""
first_part (String.◌∷◌ c s) = if nat_eq (code c) b'_' then "" else String.◌∷◌ c (first_part s)

unfoldable pub later_parts : String → String
later_parts String.[] = ""
later_parts (String.◌∷◌ c s) = if nat_eq (code c) b'_' then s else later_parts s

-- `convIdToTarget`
unfoldable pub conv_id_to_target : Option String → String → Dict (List Channel) → Option ChatTarget
conv_id_to_target me conv_id channels_by_group =
    let rest = after_prefix conv_id in
    let a = first_part rest in
    let b = first_part (later_parts rest) in
    if starts_with conv_id "c_"
    then (elim (find_channel rest channels_by_group) [
      | none ↦ none
      | some (gid, ch) ↦ some (channel gid rest)
    ])
    else (if starts_with conv_id "p_"
        then (elim me [ none ↦ none | some id ↦ some (friend (if a == id then b else a)) ])
        else none)

-- The badge: the unread counts of the conversations that are not muted. `others` are the keys of
-- `read` that are none of `last`.
unfoldable pub unread_total : List String → SeqMap → SeqMap → List String → ℕ
unread_total muted last read [] = 0
unread_total muted last read (id ∷ ids) =
    let rest = unread_total muted last read ids in
    if is_in id muted then rest else ((get id last or_else 0) - (get id read or_else 0)) + rest

unfoldable pub badge : List String → SeqMap → SeqMap → ℕ
badge muted last read =
    let others = keep (λ id. not (is_in id (keys last))) (keys read) in
    unread_total muted last read (keys last) + unread_total muted last read others
