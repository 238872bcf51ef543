-- ===== src/Chat.antt =====
-- client/src/store/chatStore.ts: the state of the store, and the three effects that its setters
-- have outside it: the sequence store, the cache in localStorage and the archive of the preload.
pub mod Messages
pub mod Marks
pub mod Frames
pub mod Lists
pub mod Effects
pub mod Cache
pub mod Runs
pub mod Merge
pub mod Authority
pub mod Mirror
pub mod Stored
use dfchat.Common.{
  ℕ, ◌+◌, ◌*◌, String, Bool, true, false, not, Option, none, some, List, [], ◌∷◌, ◌++◌, map, ltb,
  if◌then◌else◌, slice_last,
}
use dfchat.Common.Dict.{Dict, put}
use dfchat.Types.{ChatMessage, Friend, Group, Channel, Pin}
use dfchat.Seq.{SeqStore}
use dfchat.Archive.{ArchivedMessage}

pub data ChatTarget : Type 0 where
  friend : String → ChatTarget
  channel : (group_id channel_id : String) → ChatTarget

pub record PendingJump : Type 0 where
  pub conv_id : String
  pub message_id : String
  pub seq : ℕ

-- `mutedConvs` is a set, kept as the list of its elements; a notification mode is 0, 1 or 2.
pub record ChatState : Type 0 where
  pub friends : List Friend
  pub groups : List Group
  pub channels_by_group : Dict (List Channel)
  pub active_target : Option ChatTarget
  pub messages_by_conv : Dict (List ChatMessage)
  pub pins_by_conv : Dict (List Pin)
  pub peer_last_read_seq : Dict (Dict ℕ)
  pub muted_convs : List String
  pub group_notify_modes : Dict ℕ
  pub mention_by_conv : Dict Bool
  pub pending_jump : Option PendingJump

-- The text under a cache key: an array of messages, another JSON value (or the empty text), or one
-- on which JSON.parse throws.
pub data CachedText : Type 0 where
  messages : List ChatMessage → CachedText
  other : CachedText
  malformed : CachedText

-- A call of window.dfchatArchive.
pub data ArchiveCall : Type 0 where
  append : ArchivedMessage → ArchiveCall
  remove : String → ArchiveCall

-- The store with what its setters reach: the sequence store, localStorage under the cache prefix
-- (keyed by the conversation, with `quota` true if `setItem` throws), whether the preload gives an
-- archive, and the calls sent to it, the latest first.
pub record Client : Type 0 where
  pub chat : ChatState
  pub seqs : SeqStore
  pub cache : Dict CachedText
  pub quota : Bool
  pub has_archive : Bool
  pub archive_calls : List ArchiveCall

abbrev pub msg_cache_limit : ℕ
msg_cache_limit = 50

abbrev pub retention_window_ms : ℕ
retention_window_ms = 30 * 24 * 60 * 60 * 1000

-- `new Date(text).getTime()`, where `none` is NaN; times before 1970 are left out.
abbrev pub ParseDate : Type 0
ParseDate = String → Option ℕ

-- `Date.now() - t > RETENTION_WINDOW_MS`
unfoldable pub is_past_authority_window : ParseDate → ℕ → String → Bool
is_past_authority_window parse_date now created_at = elim (parse_date created_at) [
  | none ↦ false
  | some t ↦ ltb (t + retention_window_ms) now
]

unfoldable pub cache_messages : String → List ChatMessage → Client → Client
cache_messages conv_id msgs c =
    if c.quota
    then c
    else record c { cache = put conv_id (messages (slice_last msg_cache_limit msgs)) c.cache }

unfoldable pub to_archived : ChatMessage → ArchivedMessage
to_archived msg = record {
  id = msg.id;
  conversation_id = msg.conversation_id;
  sender_id = msg.sender_id;
  type = msg.type;
  content = msg.content;
  seq = msg.seq;
  mentions = msg.mentions;
  reply_to = msg.reply_to;
  is_recalled = msg.is_recalled;
  edited_at = msg.edited_at;
  edit_count = msg.edit_count;
  created_at = msg.created_at;
}

unfoldable pub archive_append : ChatMessage → Client → Client
archive_append msg c =
    if c.has_archive
    then record c { archive_calls = append (to_archived msg) ∷ c.archive_calls }
    else c

unfoldable pub archive_remove : String → Client → Client
archive_remove message_id c =
    if c.has_archive then record c { archive_calls = remove message_id ∷ c.archive_calls } else c

-- `messagesByConv: { ...s.messagesByConv, [convId]: msgs }`
unfoldable pub set_conv : String → List ChatMessage → Client → Client
set_conv conv_id msgs c = record c {
  chat = record c.chat { messages_by_conv = put conv_id msgs c.chat.messages_by_conv };
}
