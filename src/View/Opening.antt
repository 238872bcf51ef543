-- ===== src/View/Opening.antt =====
-- client/src/components/ChatView.tsx: the context of the view, and what happens when a conversation is
-- opened. The answers of the archive and of the server come in any order, `none` for one that rejects
-- or comes after another conversation was opened (`cancelled`).
use Prim.Native.String.{◌++◌}
use dfchat.Common.{
  ℕ, String, Bool, Option, none, some, List, [], ◌∷◌, map, if◌then◌else◌, ◌or_else◌, ◌==◌, find,
}
use dfchat.Common.Dict.{get}
use dfchat.Types.{ChatMessage, Channel, Pin}
use dfchat.Seq.{mark_read}
use dfchat.Archive.{ArchivedMessage}
use dfchat.Chat.{Client, ChatState, friend, channel}
use dfchat.Chat.Messages.{has_id, conv_of, set_messages, merge_messages}
use dfchat.Chat.Marks.{clear_unread, set_pins, set_channels, set_pending_jump}
use dfchat.Home.{private_conv_id, shown_name}
use dfchat.View.Render.{last}

pub data Place : Type 0 where
  with_friend : (target_id : String) → Place
  in_channel : (group_id channel_id : String) → Place

pub record Context : Type 0 where
  pub title : String
  pub avatar_name : String
  pub conv_id : String
  pub place : Place

-- `ctx` without the fields that are only shown or say which buttons are there, where `before` is BigInt(a) < BigInt(b)
unfoldable pub context : (String → String → Bool) → Option String → ChatState → Option Context
context before none s = none
context before (some me) s = elim s.active_target [
  | none ↦ none
  | some (friend id) ↦ elim (find (λ f. f.id == id) s.friends) [
    | none ↦ none
    | some f ↦ some (record {
      title = shown_name f;
      avatar_name = shown_name f;
      conv_id = private_conv_id before me f.id;
      place = with_friend f.id;
    })
  ]
  | some (channel gid cid) ↦ elim (find (λ g. g.id == gid) s.groups) [
    | none ↦ none
    | some g ↦ elim (find (λ ch. ch.id == cid) (get gid s.channels_by_group or_else [])) [
      | none ↦ none
      | some ch ↦ some (record {
        title = "#" ++ ch.name;
        avatar_name = g.name;
        conv_id = "c_" ++ ch.id;
        place = in_channel g.id ch.id;
      })
    ]
  ]
]

-- The message that the view makes of an archived row. The ids of `mentions` and `replyTo`, which are
-- turned into numbers, stay in their decimal form.
unfoldable pub from_archived : ArchivedMessage → ChatMessage
from_archived r = record {
  id = r.id;
  conversation_id = r.conversation_id;
  sender_id = r.sender_id;
  type = r.type;
  content = r.content;
  seq = r.seq;
  mentions = r.mentions;
  reply_to = r.reply_to;
  reactions = none;
  is_recalled = r.is_recalled;
  edited_at = r.edited_at;
  edit_count = r.edit_count;
  created_at = r.created_at;
}

-- The effect that enters a conversation, up to its first answer
unfoldable pub enter : String → Client → Client
enter conv_id c = record c { chat = clear_unread conv_id c.chat }

-- the answer of `archive.queryByConv(convId, 200)`
unfoldable pub on_archive_rows : String → Option (List ArchivedMessage) → Client → Client
on_archive_rows conv_id none c = c
on_archive_rows conv_id (some []) c = c
on_archive_rows conv_id (some (r ∷ rows)) c =
    merge_messages conv_id (map from_archived (r ∷ rows)) c

-- the answer of `listMessages(convId)`
unfoldable pub on_server_messages : String → Option (List ChatMessage) → Client → Client
on_server_messages conv_id none c = c
on_server_messages conv_id (some msgs) c =
    if c.has_archive then merge_messages conv_id msgs c else set_messages conv_id msgs c

-- the answers of `listPins` and of `listChannels`, which is asked for channels that are not there
unfoldable pub on_pins : String → Option (List Pin) → Client → Client
on_pins conv_id none c = c
on_pins conv_id (some pins) c = record c { chat = set_pins conv_id pins c.chat }

unfoldable pub on_channels : String → Option (List Channel) → Client → Client
on_channels group_id none c = c
on_channels group_id (some chs) c = record c { chat = set_channels group_id chs c.chat }

-- The effect after the messages on the screen changed: the head is read, and the server is told the
-- number that comes with it.
unfoldable pub read_to_end : String → Client → Client × Option ℕ
read_to_end conv_id c = elim (last (conv_of conv_id c or_else [])) [
  | none ↦ (c, none)
  | some m ↦ (record c { seqs = mark_read conv_id m.seq c.seqs }, some m.seq)
]

-- The effect of a pending jump, with the answer of `listMessagesAround`, which is asked only where the
-- message is not there; the jump is done if its bubble is.
unfoldable pub jump : String → Option (List ChatMessage) → Client → Client
jump conv_id around c = elim c.chat.pending_jump [
  | none ↦ c
  | some j ↦
      let fetched : Client = elim around [ none ↦ c | some ms ↦ merge_messages conv_id ms c ] in
      let d = if has_id j.message_id (conv_of conv_id c or_else []) then c else fetched in
      let done = record d { chat = set_pending_jump none d.chat } in
      if j.conv_id == conv_id
      then (if has_id j.message_id (conv_of conv_id d or_else []) then done else d)
      else c
]
