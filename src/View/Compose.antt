-- ===== src/View/Compose.antt =====
-- client/src/components/ChatView.tsx: the handlers of the messages and of the text field. A handler
-- that waits for the server is one function up to the request, which it puts at the end of the list of
-- requests, and one for the answer.
use Prim.Native.String.{◌++◌}
use package.text.Mathlib.Text.{starts_with}
use dfchat.Common.{
  ℕ, String, Bool, true, false, Option, none, some, List, [], if◌then◌else◌, ◌or_else◌, ◌==◌, find,
  push,
}
use dfchat.Common.Dict.{Dict}
use dfchat.Types.{ChatMessage, ReactionCount, Json, text, number, object, end, field}
use dfchat.Chat.{Client, ParseDate}
use dfchat.Chat.Messages.{append_message, replace_message, remove_message, apply_reaction_update}
use dfchat.Notify.{text_of}
use dfchat.View.Opening.{Place, with_friend, in_channel, Context}
use dfchat.View.Text.{trim, extract_mentions}
use dfchat.View.Reactions.{is_emoji, includes, toggle}

pub data Request : Type 0 where
  send_private send_channel :
      (target text : String) (mentions : List String) (reply_to : Option String) → Request
  send_private_rich send_channel_rich :
      (target kind : String) (content : Json) (reply_to : Option String) → Request
  recall_message delete_message pin_message unpin_message : (id : String) → Request
  edit_message : (id text : String) → Request
  add_reaction remove_reaction : (id emoji : String) → Request

-- An answer, or the message of the error if it has one.
pub data Answer {ℓ} (A : Type ℓ) : Type ℓ where
  given : A → Answer A
  failed : Option String → Answer A

-- The state of the view that the handlers change, the stores, and the requests that were made.
pub record Composer : Type 0 where
  pub draft : String
  pub error : Option String
  pub sending : Bool
  pub uploading : Option String
  pub replying_to : Option ChatMessage
  pub editing_id : Option String
  pub editing_draft : String
  pub menu_for : Option String
  pub client : Client
  pub requests : List Request

abbrev pub reply_id : Composer → Option String
reply_id c = elim c.replying_to [ none ↦ none | some m ↦ some m.id ]

unfoldable pub text_request : Place → String → List String → Option String → Request
text_request (with_friend id) t mentions reply_to = send_private id t mentions reply_to
text_request (in_channel gid cid) t mentions reply_to = send_channel cid t mentions reply_to

unfoldable pub rich_request : Place → String → Json → Option String → Request
rich_request (with_friend id) kind content reply_to = send_private_rich id kind content reply_to
rich_request (in_channel gid cid) kind content reply_to =
    send_channel_rich cid kind content reply_to

-- `handleSendText`, where `ids` is `handleToId`
module _ (lower : String → String) (ids : Dict String) where
  unfoldable pub send_text : Option Context → Composer → Composer
  send_text none c = c
  send_text (some ctx) c =
      let t = trim c.draft in
      let r = text_request ctx.place t (extract_mentions lower ids c.draft) (reply_id c) in
      if t == "" then c else record c { error = none; sending = true; requests = push c.requests r }

unfoldable pub on_sent : Answer ChatMessage → Composer → Composer
on_sent (given m) c = record c {
  client = append_message m c.client;
  draft = "";
  replying_to = none;
  sending = false;
}
on_sent (failed why) c = record c { error = some (why or_else "发送失败"); sending = false }

pub record File : Type 0 where
  pub name : String
  pub type : String

-- what `uploadBlob` gives, with the width and the height of an image
pub record Uploaded : Type 0 where
  pub id : String
  pub url : String
  pub name : String
  pub size : ℕ
  pub mime : Option String
  pub width : ℕ
  pub height : ℕ

abbrev pub is_image : File → Bool
is_image file = starts_with file.type "image/"

abbrev pub kind_of : File → String
kind_of file = if is_image file then "image" else "file"

unfoldable pub rich_content : File → Uploaded → Json
rich_content file u =
    let dims =
      if is_image file
      then field "width" (number u.width) (field "height" (number u.height) end)
      else end in
    object (
      field "fileId" (text u.id) (
        field "url" (text u.url) (
          field "name" (text u.name)
            (field "size" (number u.size) (field "mime" (text (u.mime or_else file.type)) dims)))))

-- `handleUpload` up to the upload, then with its answer, for the context and the reply of the start,
-- and with the answer to the message
unfoldable pub upload : Option Context → File → Composer → Composer
upload none file c = c
upload (some ctx) file c = record c { error = none; uploading = some ("上传 " ++ file.name ++ "…") }

abbrev pub upload_failed : Option String → Composer → Composer
upload_failed why c = record c { error = some (why or_else "上传失败"); uploading = none }

unfoldable pub on_uploaded : Context → File → Option String → Answer Uploaded → Composer → Composer
on_uploaded ctx file reply_to (given u) c = record c {
  requests = push c.requests (rich_request ctx.place (kind_of file) (rich_content file u) reply_to);
}
on_uploaded ctx file reply_to (failed why) c = upload_failed why c

unfoldable pub on_rich_sent : Answer ChatMessage → Composer → Composer
on_rich_sent (given m) c = record c {
  client = append_message m c.client;
  replying_to = none;
  uploading = none;
}
on_rich_sent (failed why) c = upload_failed why c

-- `handleRecall`
unfoldable pub recall : ChatMessage → Composer → Composer
recall m c = record c { menu_for = none; requests = push c.requests (recall_message m.id) }

-- `handleDelete`, with the answer to the question
unfoldable pub delete : Bool → ChatMessage → Composer → Composer
delete confirmed m c =
    let closed = record c { menu_for = none } in
    if confirmed then record closed { requests = push c.requests (delete_message m.id) } else closed

-- `handleStartEdit`, `handleCancelEdit`
abbrev pub current_text : ChatMessage → String
current_text m = text_of m.content or_else ""

unfoldable pub start_edit : ChatMessage → Composer → Composer
start_edit m c = record c {
  menu_for = none;
  editing_id = some m.id;
  editing_draft = current_text m;
}

unfoldable pub cancel_edit : Composer → Composer
cancel_edit c = record c { editing_id = none; editing_draft = "" }

-- `handleSaveEdit`
unfoldable pub save_edit : ChatMessage → Composer → Composer
unfolding cancel_edit
save_edit m c =
    let t = trim c.editing_draft in
    if t == ""
    then c
    else if t == trim (current_text m)
    then cancel_edit c
    else record c { requests = push c.requests (edit_message m.id c.editing_draft) }

-- `handlePin`, `handleUnpin`
unfoldable pub pin : ChatMessage → Composer → Composer
pin m c = record c { menu_for = none; requests = push c.requests (pin_message m.id) }

unfoldable pub unpin : String → Composer → Composer
unpin id c = record c { requests = push c.requests (unpin_message id) }

-- `handleToggleReaction`, which shows the change at once
abbrev pub is_mine : ℕ → String → List ReactionCount → Bool
is_mine me emoji rs = elim (find (is_emoji emoji) rs) [
  | none ↦ false
  | some r ↦ includes me r.user_ids
]

unfoldable pub toggle_reaction : Option ℕ → ChatMessage → String → Composer → Composer
toggle_reaction none m emoji c = c
toggle_reaction (some me) m emoji c =
    let rs = m.reactions or_else [] in
    record c {
      client = apply_reaction_update m.conversation_id m.id (toggle me emoji rs) c.client;
      requests =
          push c.requests
            (if is_mine me emoji rs then remove_reaction m.id emoji else add_reaction m.id emoji);
    }

-- The answers to a recall, to a removal and to an edit.
module _ (d : ParseDate) (now : ℕ) where
  unfoldable pub on_recalled : Answer ChatMessage → Composer → Composer
  on_recalled (given m) c = record c { client = replace_message d now m c.client }
  on_recalled (failed why) c = c

  unfoldable pub on_deleted : ChatMessage → Answer (Unit {0}) → Composer → Composer
  on_deleted m (given u) c = record c {
    client = remove_message d now m.conversation_id m.id c.client;
  }
  on_deleted m (failed why) c = c

  unfoldable pub on_edited : Answer ChatMessage → Composer → Composer
  unfolding cancel_edit
  on_edited (given m) c = cancel_edit (record c { client = replace_message d now m c.client })
  on_edited (failed why) c = c
