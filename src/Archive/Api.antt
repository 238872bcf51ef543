-- ===== src/Archive/Api.antt =====
-- The exported functions of client/electron/archive.ts over the module's state. One that throws is
-- `none`.
use dfchat.Common.{
  ℕ, String, Bool, true, false, Option, none, some, List, [], ◌∷◌, length, if◌then◌else◌,
}
use dfchat.Archive.{ArchivedMessage, Cipher, JsonText}
use dfchat.Archive.Key.{KeyFile, SafeStorage, load_or_create_data_key}
use dfchat.Archive.Table.{
  ◌>>=◌, traverse, Row, upsert, set_recalled, delete_row, select_conv, select_max_seq, clamp_limit,
  in_export_order, encode, decode,
}

-- The module's variables, and what stands on disk: the rows and the key file. `db` is open between
-- `open` and `close`; `dataKey` is null (`none`) outside.
pub record Archive (c : Cipher) (Blob : Type 0) : Type 0 where
  pub opened : Bool
  pub data_key : Option c.Key
  pub rows : List (Row c)
  pub key_file : KeyFile c.Key Blob

module _ {c : Cipher} {Blob : Type 0} where
  open c use {Key, Iv, Tag, Sealed, seal}

  -- `open`, with what the keychain says at this launch and the random key of a first one
  unfoldable pub open_archive : SafeStorage Key Blob → Key → Archive c Blob → Archive c Blob
  open_archive storage fresh a =
      let loaded = load_or_create_data_key storage a.key_file fresh in
      if a.opened
      then a
      else record a { opened = true; data_key = some loaded.0; key_file = loaded.1 }

  unfoldable pub close : Archive c Blob → Archive c Blob
  close a = record a { opened = false; data_key = none }

  -- `if (!db || …) throw`, and `if (!dataKey) throw` of the two crypto helpers
  abbrev pub ready : Archive c Blob → Option Key
  ready a = if a.opened then a.data_key else none

  unfoldable pub append_message :
      JsonText → Iv → ArchivedMessage → Archive c Blob → Option (Archive c Blob)
  append_message js iv msg a = do
    key ← ready a
    some (record a { rows = upsert (encode c js key iv msg) a.rows })

  unfoldable pub mark_recalled : Iv → String → Archive c Blob → Option (Archive c Blob)
  mark_recalled iv message_id a = do
    key ← ready a
    some (record a {
      rows = set_recalled message_id iv (seal key iv "{}").0 (seal key iv "{}").1 a.rows;
    })

  unfoldable pub remove : String → Archive c Blob → Option (Archive c Blob)
  remove message_id a =
      if a.opened then some (record a { rows = delete_row message_id a.rows }) else none

  unfoldable pub query_by_conv :
      JsonText → String → ℕ → Option ℕ → Archive c Blob → Option (List ArchivedMessage)
  query_by_conv js conv_id limit before a = do
    key ← ready a
    traverse (decode c js key) (select_conv conv_id (clamp_limit limit) before a.rows)

  unfoldable pub max_seq : String → Archive c Blob → Option ℕ
  max_seq conv_id a = if a.opened then some (select_max_seq conv_id a.rows) else none

  -- The messages of the file that `exportAll` writes.
  unfoldable pub export_all : JsonText → Archive c Blob → Option (List ArchivedMessage)
  export_all js a = do key ← ready a; traverse (decode c js key) (in_export_order a.rows)

  -- The loop of `importMessages`, with the nonces that its appends draw.
  unfoldable pub append_all :
      JsonText → (ℕ → Iv) → List ArchivedMessage → Archive c Blob → Option (Archive c Blob)
  append_all js ivs [] a = some a
  append_all js ivs (m ∷ ms) a =
      append_message js (ivs (length ms)) m a >>= λ b. append_all js ivs ms b

  -- `importMessages` of the parsed `messages`: one transaction, all or nothing, and their number.
  unfoldable pub import_messages :
      JsonText → (ℕ → Iv) → List ArchivedMessage → Archive c Blob → Option (Archive c Blob × ℕ)
  import_messages js ivs msgs a =
      if a.opened then (append_all js ivs msgs a >>= λ b. some (b, length msgs)) else none
