-- ===== src/Archive/Table.antt =====
-- The rows of messages_archive in client/electron/archive.ts and the exported operations on them. An
-- operation that throws is `none`.
use mathlib.Core.Option
use Prim.Native.Nat.{◌%◌, Ordering}
use Prim.Native.String.{compare}
use dfchat.Common.{
  ℕ, ◌^◌, min, max, String, Bool, true, false, Option, none, some, List, [], ◌∷◌, ltb, leb, nat_eq,
  if◌then◌else◌, ◌or_else◌, ◌==◌, ◌&&◌, not, keep, take,
}
use dfchat.Types.{Json, null, text, array, object, nil, cons, end, Items}
use dfchat.Archive.{ArchivedMessage, Cipher, JsonText}

infixl 5 ◌>>=◌
abbrev pub ◌>>=◌ {ℓ κ} : {A : Type ℓ} {B : Type κ} → Option A → (A → Option B) → Option B
none >>= f = none
some a >>= f = f a

abbrev pub traverse {ℓ κ} : {A : Type ℓ} {B : Type κ} → (A → Option B) → List A → Option (List B)
traverse f [] = some []
traverse f (x ∷ xs) = f x >>= λ y. traverse f xs >>= λ ys. some (y ∷ ys)

-- The value that `JSON.stringify(mentions)` prints, and the strings of a parsed one.
abbrev pub texts : List String → Items
texts [] = nil
texts (s ∷ ss) = cons (text s) (texts ss)

abbrev pub strings_of : Items → List String
strings_of nil = []
strings_of (cons (text s) items) = s ∷ strings_of items
strings_of (cons _ items) = strings_of items

abbrev pub strings : Json → List String
strings (array items) = strings_of items
strings _ = []

-- `msg.content ?? {}`
abbrev pub content_or_empty : Json → Json
content_or_empty null = object end
content_or_empty j = j

-- `s ? f(s) : undefined`, false for the empty text
abbrev pub if_text {ℓ} : {A : Type ℓ} → Option String → (String → Option A) → Option (Option A)
if_text none f = some none
if_text (some s) f = if s == "" then some none else (f s >>= λ a. some (some a))

-- `n || undefined`
abbrev pub nonzero : ℕ → Option ℕ
nonzero n = if nat_eq n 0 then none else some n

abbrev pub to_integer : Bool → ℕ
to_integer true = 1
to_integer false = 0

-- `@before_seq IS NULL OR seq < @before_seq`
abbrev pub is_before : Option ℕ → ℕ → Bool
is_before none seq = true
is_before (some before) seq = ltb seq before

pub record Row (c : Cipher) : Type 0 where
  pub id : String
  pub conversation_id : String
  pub sender_id : String
  pub type : String
  pub content_iv : c.Iv
  pub content_tag : c.Tag
  pub content_enc : c.Sealed
  pub seq : ℕ
  pub mentions_json : Option String
  pub reply_to : Option String
  pub is_recalled : ℕ
  pub edited_at : Option String
  pub edit_count : ℕ
  pub created_at : String

module _ {c : Cipher} where
  -- DO UPDATE SET of stmtUpsert
  abbrev pub overwrite_row : Row c → Row c → Row c
  overwrite_row r new = record r {
    content_iv = new.content_iv;
    content_tag = new.content_tag;
    content_enc = new.content_enc;
    mentions_json = new.mentions_json;
    reply_to = new.reply_to;
    is_recalled = new.is_recalled;
    edited_at = new.edited_at;
    edit_count = new.edit_count;
  }

  -- stmtUpsert: an insert that, where the id is there, writes the columns of its SET list.
  unfoldable pub upsert : Row c → List (Row c) → List (Row c)
  upsert new [] = new ∷ []
  upsert new (r ∷ rows) = if r.id == new.id then overwrite_row r new ∷ rows else r ∷ upsert new rows

  -- SET of stmtMarkRecalled
  abbrev pub recall_row : c.Iv → c.Tag → c.Sealed → Row c → Row c
  recall_row iv tag enc r = record r {
    is_recalled = 1;
    content_iv = iv;
    content_tag = tag;
    content_enc = enc;
  }

  -- stmtMarkRecalled
  unfoldable pub set_recalled : String → c.Iv → c.Tag → c.Sealed → List (Row c) → List (Row c)
  set_recalled id iv tag enc [] = []
  set_recalled id iv tag enc (r ∷ rows) =
      (if r.id == id then recall_row iv tag enc r else r) ∷ set_recalled id iv tag enc rows

  -- stmtRemove
  unfoldable pub delete_row : String → List (Row c) → List (Row c)
  delete_row id rows = keep (λ r. not (r.id == id)) rows

  -- ORDER BY seq DESC
  abbrev pub insert_newest : Row c → List (Row c) → List (Row c)
  insert_newest r [] = r ∷ []
  insert_newest r (s ∷ rows) = if leb s.seq r.seq then r ∷ s ∷ rows else s ∷ insert_newest r rows

  abbrev pub newest_first : List (Row c) → List (Row c)
  newest_first [] = []
  newest_first (r ∷ rows) = insert_newest r (newest_first rows)

  -- stmtQueryByConv
  unfoldable pub select_conv : String → ℕ → Option ℕ → List (Row c) → List (Row c)
  select_conv conv_id limit before rows =
      take limit
        (newest_first (keep (λ r. (r.conversation_id == conv_id) && is_before before r.seq) rows))

  -- stmtMaxSeq
  unfoldable pub select_max_seq : String → List (Row c) → ℕ
  select_max_seq conv_id [] = 0
  select_max_seq conv_id (r ∷ rows) =
      let rest = select_max_seq conv_id rows in
      if r.conversation_id == conv_id then max r.seq rest else rest

  -- ORDER BY conversation_id, seq ASC, texts compared by their bytes
  abbrev pub leb_export : Row c → Row c → Bool
  leb_export r s = elim (compare r.conversation_id s.conversation_id) [
    | Ordering.lt ↦ true
    | Ordering.eq ↦ leb r.seq s.seq
    | Ordering.gt ↦ false
  ]

  abbrev pub insert_exported : Row c → List (Row c) → List (Row c)
  insert_exported r [] = r ∷ []
  insert_exported r (s ∷ rows) = if leb_export r s then r ∷ s ∷ rows else s ∷ insert_exported r rows

  -- stmtAllForExport
  unfoldable pub in_export_order : List (Row c) → List (Row c)
  in_export_order [] = []
  in_export_order (r ∷ rows) = insert_exported r (in_export_order rows)

-- `Math.max(1, Math.min(500, limit | 0))`, where `| 0` reads the low 32 bits as a signed number.
unfoldable pub clamp_limit : ℕ → ℕ
clamp_limit limit = let low = limit % 2 ^ 32 in if leb (2 ^ 31) low then 1 else max 1 (min 500 low)

module _ (c : Cipher) (js : JsonText) where
  open c use {Key, Iv, seal, unseal}

  -- The row that `appendMessage` hands to stmtUpsert.
  unfoldable pub encode : Key → Iv → ArchivedMessage → Row c
  encode key iv msg =
      let plain_json = js.stringify (content_or_empty msg.content) in
      record {
        id = msg.id;
        conversation_id = msg.conversation_id;
        sender_id = msg.sender_id;
        type = msg.type;
        content_iv = iv;
        content_tag = (seal key iv plain_json).0;
        content_enc = (seal key iv plain_json).1;
        seq = msg.seq;
        mentions_json = elim msg.mentions [
          | some (m ∷ ms) ↦ some (js.stringify (array (texts (m ∷ ms))))
          | _ ↦ none
        ];
        reply_to = msg.reply_to;
        is_recalled = to_integer msg.is_recalled;
        edited_at = msg.edited_at;
        edit_count = msg.edit_count or_else 0;
        created_at = msg.created_at;
      }

  -- The message that `queryByConv` and `exportAll` build from a row.
  unfoldable pub decode : Key → Row c → Option ArchivedMessage
  decode key r = do
    plain ← unseal key r.content_iv r.content_tag r.content_enc
    content ← js.parse (if plain == "" then "{}" else plain)
    mentions ← if_text r.mentions_json (λ s. Option.map strings (js.parse s))
    some (record {
      id = r.id;
      conversation_id = r.conversation_id;
      sender_id = r.sender_id;
      type = r.type;
      content = content;
      seq = r.seq;
      mentions = mentions;
      reply_to = r.reply_to;
      is_recalled = not (nat_eq r.is_recalled 0);
      edited_at = r.edited_at;
      edit_count = nonzero r.edit_count;
      created_at = r.created_at;
    })
