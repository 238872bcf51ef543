-- ===== src/Chat/Stored.antt =====
-- A message that client/src/store/chatStore.ts appends, in the archive of client/electron/archive.ts.
use dfchat.Common.{
  String, ◌≡◌, refl, ap, ◌∙◌, true, some, map, reverse, if◌then◌else◌, ◌==◌, ◌++◌, [], ◌∷◌, arith,
  ◌&&◌, ◌or_else◌, Bool-cases, inl, inr,
}
use dfchat.Types.{ChatMessage}
use dfchat.Archive.{ArchivedMessage, Cipher, JsonText}
use dfchat.Archive.Table.{content_or_empty, nonzero, ◌>>=◌}
use dfchat.Archive.RoundTrip.{normal, nonempty}
use dfchat.Archive.Api.{Archive}
use dfchat.Archive.Refinement.{written, view, IsOpen, exec_all}
use dfchat.Chat.{Client, archive_append, to_archived}
use dfchat.Chat.Messages.{has_id, conv_of, bump, append_message}
use dfchat.Chat.Mirror.{to_write, played, exec_all-played, calls-stored, played-archive_append}

-- The message as the archive gives it back: a null content is an empty object, an empty list of
-- mentions and a count of 0 edits are absent.
abbrev pub received : ChatMessage → ArchivedMessage
received m = record {
  id = m.id;
  conversation_id = m.conversation_id;
  sender_id = m.sender_id;
  type = m.type;
  content = content_or_empty m.content;
  seq = m.seq;
  mentions = nonempty m.mentions;
  reply_to = m.reply_to;
  is_recalled = m.is_recalled;
  edited_at = m.edited_at;
  edit_count = m.edit_count >>= nonzero;
  created_at = m.created_at;
}

received_lem : (m : ChatMessage) → normal (to_archived m) ≡ received m
unfolding normal to_archived
received_lem m = refl

calls-bump :
    (m : ChatMessage) (c : Client)
    → (archive_append m (bump m c)).archive_calls ≡ (archive_append m c).archive_calls
unfolding archive_append
calls-bump m c = elim (Bool-cases c.has_archive) [ inl h ↦ ground arith | inr h ↦ ground arith ]

calls-append_message :
    (m : ChatMessage) (c : Client)
    → (append_message m c).archive_calls ≡ (archive_append m c).archive_calls
unfolding append_message
calls-append_message m c0 =
    let c = archive_append m (bump m c0) in
    let existing = conv_of m.conversation_id c or_else [] in
    elim (Bool-cases (has_id m.id existing)) [
      | inl there ↦ rw there (calls-bump m c0)
      | inr new ↦ rw new (calls-stored m.conversation_id (existing ++ m ∷ []) c ∙ calls-bump m c0)
    ]

-- On a client with an archive, a message is appended to the chat store, shown already or not. Then an
-- open archive with readable rows carries out all calls that the store has sent, in their order, and
-- holds under the message's id what was received, over an older copy if there is one, and under every
-- other id what the calls before it leave.
pub exec_all-append_message :
    {cipher : Cipher} {Blob : Type 0} (js : JsonText) (key : cipher.Key) (iv : cipher.Iv)
    (m : ChatMessage) (c : Client) (a : Archive cipher Blob)
    → c.has_archive ≡ true
    → IsOpen {c = cipher} js key a
    → (b : Archive cipher Blob) × (exec_all {c = cipher} js key
          (map (to_write {c = cipher} iv) (reverse (append_message m c).archive_calls))
          a
        ≡ some b)
      × IsOpen {c = cipher} js key b
      × ((j : String)
          → view {c = cipher} js key b.rows j ≡ (
              if m.id == j
              then some (
                  written (received m) (played c.archive_calls (view {c = cipher} js key a.rows) j))
              else played c.archive_calls (view {c = cipher} js key a.rows) j))
exec_all-append_message {cipher} js key iv m c a local h =
    let (b, done, open_b, same) =
      exec_all-played {c = cipher} js key iv (append_message m c).archive_calls a h in
    let v = view {c = cipher} js key a.rows in
    (
      b,
      done,
      open_b,
      λ j.
          let before = played c.archive_calls v j in
          same j
          ∙ ap (λ l. played l v j) (calls-append_message m c)
          ∙ played-archive_append m c v j
          ∙ ap
              (λ has.
                if has && (m.id == j)
                then some (written (normal (to_archived m)) before)
                else before)
              local
          ∙ ap (λ r. if m.id == j then some (written r before) else before) (received_lem m),
    )
