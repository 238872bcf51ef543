-- ===== src/Archive/RoundTrip.antt =====
-- What a message looks like when the archive hands it back.
use mathlib.Core.Option
use dfchat.Common.{String, ◌≡◌, refl, ap, true, Option, none, some, List, [], ◌∷◌, arith}
use dfchat.Types.{array, object, end}
use dfchat.Archive.{ArchivedMessage, Cipher, JsonText}
use dfchat.Archive.Table.{
  ◌>>=◌, texts, strings, strings_of, content_or_empty, if_text, nonzero, Row, encode, decode,
  overwrite_row, recall_row,
}

abbrev pub nonempty : Option (List String) → Option (List String)
nonempty (some (m ∷ ms)) = some (m ∷ ms)
nonempty _ = none

-- A message without what the table cannot tell apart: no mentions and an empty list of them, no edit
-- count and 0, a content that is null and the empty object.
unfoldable pub normal : ArchivedMessage → ArchivedMessage
normal m = record m {
  content = content_or_empty m.content;
  mentions = nonempty m.mentions;
  edit_count = m.edit_count >>= nonzero;
}

strings_of-texts : (ss : List String) → strings_of (texts ss) ≡ ss
strings_of-texts [] = refl
strings_of-texts (s ∷ ss) = ap (◌∷◌ s) (strings_of-texts ss)

module _ (c : Cipher) (js : JsonText) where
  mentions-encode :
      (o : Option (List String))
      → if_text
          (elim o [ some (m ∷ ms) ↦ some (js.stringify (array (texts (m ∷ ms)))) | _ ↦ none ])
          (λ s. Option.map strings (js.parse s))
        ≡ some (nonempty o)
  mentions-encode none = refl
  mentions-encode (some []) = refl
  mentions-encode (some (m ∷ ms)) =
      rw (js.stringify_ne_empty (array (texts (m ∷ ms))), js.parse-stringify)
        (ap (λ l. some (some (m ∷ l))) (strings_of-texts ms))

  -- A row with the sealed columns of a message is read back with them, and with its own others.
  pub decode-overwrite_row-encode :
      (key : c.Key) (iv : c.Iv) (r : Row c) (m : ArchivedMessage)
      → decode c js key (overwrite_row {c = c} r (encode c js key iv m))
        ≡ some (record (normal m) {
          id = r.id;
          conversation_id = r.conversation_id;
          sender_id = r.sender_id;
          type = r.type;
          seq = r.seq;
          created_at = r.created_at;
        })
  unfolding decode encode normal
  decode-overwrite_row-encode key iv r m =
      let plain_json = js.stringify (content_or_empty m.content) in
      rw
        (
          c.unseal-seal key iv plain_json,
          js.stringify_ne_empty (content_or_empty m.content),
          js.parse-stringify (content_or_empty m.content),
          mentions-encode m.mentions,
        )
        (ground arith)

  -- With the key that sealed it, a row is read back as the message it was made of, but for the
  -- differences that `normal` drops.
  pub decode-encode :
      (key : c.Key) (iv : c.Iv) (m : ArchivedMessage)
      → decode c js key (encode c js key iv m) ≡ some (normal m)
  unfolding encode normal
  decode-encode key iv m = decode-overwrite_row-encode key iv (encode c js key iv m) m

  pub decode_columns :
      (key : c.Key) (r : Row c) (old : ArchivedMessage)
      → decode c js key r ≡ some old
      → (old.id ≡ r.id)
        × (old.conversation_id ≡ r.conversation_id)
        × (old.sender_id ≡ r.sender_id)
        × (old.type ≡ r.type)
        × (old.seq ≡ r.seq)
        × (old.created_at ≡ r.created_at)
  unfolding decode
  decode_columns key r old e = ground arith

  pub decode-recall_row :
      (key : c.Key) (iv : c.Iv) (r : Row c) (old : ArchivedMessage)
      → decode c js key r ≡ some old
      → decode c js key (recall_row {c = c} iv (c.seal key iv "{}").0 (c.seal key iv "{}").1 r)
        ≡ some (record old { content = object end; is_recalled = true })
  unfolding decode
  decode-recall_row key iv r old e =
      rw (c.unseal-seal key iv "{}", js.parse_empty_object) (ground arith)

  pub id-encode : (key : c.Key) (iv : c.Iv) (m : ArchivedMessage) → (encode c js key iv m).id ≡ m.id
  unfolding encode
  id-encode key iv m = refl
