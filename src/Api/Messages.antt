-- ===== src/Api/Messages.antt =====
-- client/src/api/client.ts: the requests of messages, their marks and files.
use dfchat.Common.{ℕ, String, Bool, Option, none, some, List, [], ◌∷◌, if◌then◌else◌}
use dfchat.Markdown.Inline.{is_blank}
use dfchat.View.Text.{trim}
use dfchat.Api.{
  Json, undefined, text, number, flag, object, fields, optional, texts, post, patch, delete,
  Endpoint, value, whole, items, nothing, getting, with_body, bare,
}
use dfchat.Api.Encode.{encode_uri_component}

-- SendBody
pub record SendBody : Type 0 where
  pub to : Option String
  pub group_id : Option String
  pub channel_id : Option String
  pub type : String
  pub content : List (String × Json)
  pub mentions : Option (List String)
  pub reply_to : Option String

abbrev pub optional_texts : Option (List String) → Json
optional_texts none = undefined
optional_texts (some l) = texts l

-- `setConversationPreferences`
unfoldable pub set_conversation_preferences : (conversation_id : String) → (muted : Bool) → Endpoint
set_conversation_preferences conversation_id muted =
    with_body patch ("conversations" ∷ encode_uri_component conversation_id ∷ "preferences" ∷ [])
      (("muted", flag muted) ∷ []) nothing

-- `listConversationFiles`
unfoldable pub list_conversation_files : (conv_id : String) → Endpoint
list_conversation_files conv_id =
    getting ("files" ∷ "by-conversation" ∷ encode_uri_component conv_id ∷ []) [] (items "files")

-- `listMessages`
unfoldable pub list_messages : (conversation_id : String) → (limit : ℕ) → Endpoint
list_messages conversation_id limit =
    getting ("messages" ∷ [])
      (("conversationId", text conversation_id) ∷ ("limit", number limit) ∷ []) (items "messages")

-- `listMessagesAfter`
unfoldable pub list_messages_after : (conversation_id : String) → (after_seq limit : ℕ) → Endpoint
list_messages_after conversation_id after_seq limit =
    getting ("messages" ∷ [])
      (("conversationId", text conversation_id)
        ∷ ("afterSeq", number after_seq)
        ∷ ("limit", number limit)
        ∷ [])
      (items "messages")

-- `listMessagesAround`
unfoldable pub list_messages_around : (conversation_id : String) → (around_seq limit : ℕ) → Endpoint
list_messages_around conversation_id around_seq limit =
    getting ("messages" ∷ [])
      (("conversationId", text conversation_id)
        ∷ ("aroundSeq", number around_seq)
        ∷ ("limit", number limit)
        ∷ [])
      (items "messages")

-- `requestUploadToken`
unfoldable pub request_upload_token : (name mime : String) → (size : ℕ) → (kind : String) → Endpoint
request_upload_token name mime size kind =
    with_body post ("files" ∷ "upload-token" ∷ [])
      (("name", text name) ∷ ("mime", text mime) ∷ ("size", number size) ∷ ("kind", text kind) ∷ [])
      whole

-- `confirmUpload`
unfoldable pub confirm_upload : (file_id : String) → Endpoint
confirm_upload file_id =
    with_body post ("files" ∷ "confirm" ∷ []) (("fileId", text file_id) ∷ []) (value "file")

-- `syncConversations`
unfoldable pub sync_conversations : Endpoint
sync_conversations = getting ("sync" ∷ "conversations" ∷ []) [] (items "conversations")

-- `recallMessage`
unfoldable pub recall_message : (id : String) → Endpoint
recall_message id = bare post ("messages" ∷ id ∷ "recall" ∷ []) (value "message")

-- `editMessage`
unfoldable pub edit_message : (message_id message : String) → Endpoint
edit_message message_id message =
    with_body patch ("messages" ∷ message_id ∷ [])
      (("content", object (fields (("text", text message) ∷ []))) ∷ []) (value "message")

-- `deleteMessage`
unfoldable pub delete_message : (message_id : String) → Endpoint
delete_message message_id = bare delete ("messages" ∷ message_id ∷ []) nothing

-- `addReaction`
unfoldable pub add_reaction : (message_id emoji : String) → Endpoint
add_reaction message_id emoji =
    with_body post ("messages" ∷ message_id ∷ "reactions" ∷ []) (("emoji", text emoji) ∷ []) nothing

-- `removeReaction`
unfoldable pub remove_reaction : (message_id emoji : String) → Endpoint
remove_reaction message_id emoji =
    bare delete ("messages" ∷ message_id ∷ "reactions" ∷ encode_uri_component emoji ∷ []) nothing

-- `pinMessage`
unfoldable pub pin_message : (message_id : String) → Endpoint
pin_message message_id = bare post ("messages" ∷ message_id ∷ "pin" ∷ []) nothing

-- `unpinMessage`
unfoldable pub unpin_message : (message_id : String) → Endpoint
unpin_message message_id = bare delete ("messages" ∷ message_id ∷ "pin" ∷ []) nothing

-- `listPins`
unfoldable pub list_pins : (conversation_id : String) → Endpoint
list_pins conversation_id =
    getting ("conversations" ∷ encode_uri_component conversation_id ∷ "pins" ∷ []) [] (items "pins")

-- `markRead`
unfoldable pub mark_read : (conversation_id : String) → (seq : ℕ) → Endpoint
mark_read conversation_id seq =
    with_body post ("conversations" ∷ encode_uri_component conversation_id ∷ "read" ∷ [])
      (("seq", number seq) ∷ []) (value "seq")

-- `searchMessages`: for white space nothing is sent, and the result is an empty list.
abbrev pub searching : (q : String) (conversation_id : Option String) → Endpoint
searching q conversation_id =
    getting ("search" ∷ "messages" ∷ [])
      (("q", text q) ∷ ("conversationId", optional conversation_id) ∷ ("limit", number 30) ∷ [])
      (items "hits")

unfoldable pub search_messages : (q : String) (conversation_id : Option String) → Option Endpoint
search_messages q conversation_id =
    if is_blank (trim q) then none else some (searching q conversation_id)

-- `postMessage`
unfoldable pub post_message : SendBody → Endpoint
post_message b =
    with_body post ("messages" ∷ [])
      (("to", optional b.to)
        ∷ ("groupId", optional b.group_id)
        ∷ ("channelId", optional b.channel_id)
        ∷ ("type", text b.type)
        ∷ ("content", object (fields b.content))
        ∷ ("mentions", optional_texts b.mentions)
        ∷ ("replyTo", optional b.reply_to)
        ∷ [])
      (value "message")

-- `sendPrivateMessage`
unfoldable pub send_private_message :
    (to message : String) (mentions : Option (List String)) (reply_to : Option String) → Endpoint
send_private_message to message mentions reply_to = post_message (record {
  to = some to;
  group_id = none;
  channel_id = none;
  type = "text";
  content = ("text", text message) ∷ [];
  mentions = mentions;
  reply_to = reply_to;
})

-- `sendChannelMessage`
unfoldable pub send_channel_message :
    (channel_id message : String) (mentions : Option (List String)) (reply_to : Option String)
    → Endpoint
send_channel_message channel_id message mentions reply_to = post_message (record {
  to = none;
  group_id = none;
  channel_id = some channel_id;
  type = "text";
  content = ("text", text message) ∷ [];
  mentions = mentions;
  reply_to = reply_to;
})

-- `sendPrivateRich`
unfoldable pub send_private_rich :
    (to type : String) (content : List (String × Json)) (reply_to : Option String) → Endpoint
send_private_rich to type content reply_to = post_message (record {
  to = some to;
  group_id = none;
  channel_id = none;
  type = type;
  content = content;
  mentions = none;
  reply_to = reply_to;
})

-- `sendChannelRich`
unfoldable pub send_channel_rich :
    (channel_id type : String) (content : List (String × Json)) (reply_to : Option String)
    → Endpoint
send_channel_rich channel_id type content reply_to = post_message (record {
  to = none;
  group_id = none;
  channel_id = some channel_id;
  type = type;
  content = content;
  mentions = none;
  reply_to = reply_to;
})
