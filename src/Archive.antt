-- ===== src/Archive.antt =====
-- client/electron/archive.ts: the encrypted table of messages behind window.dfchatArchive. The SQL
-- of each prepared statement is a function on the list of rows; node:crypto, the keychain
-- (safeStorage) and JSON's texts are parameters.
pub mod Key
pub mod Table
pub mod Api
pub mod RoundTrip
pub mod Refinement
pub mod Export
pub mod Transfer
pub mod Lifecycle
pub mod Queries
pub mod Greatest
pub mod Pages
use dfchat.Common.{ℕ, String, Bool, Option, none, some, List, ◌≡◌, ◌==◌, false}
use dfchat.Types.{Json, object, end}

pub record ArchivedMessage : Type 0 where
  pub id : String
  pub conversation_id : String
  pub sender_id : String
  pub type : String
  pub content : Json
  pub seq : ℕ
  pub mentions : Option (List String)
  pub reply_to : Option String
  pub is_recalled : Bool
  pub edited_at : Option String
  pub edit_count : Option ℕ
  pub created_at : String

-- AES-256-GCM of node:crypto, with texts for its buffers: `seal` gives the tag and the cipher text,
-- and `unseal` throws (`none`) if the tag does not fit. What the archive relies on is that the key,
-- the nonce and the tag of a sealed text open it.
pub record Cipher : Type 1 where
  pub Key : Type 0
  pub Iv : Type 0
  pub Tag : Type 0
  pub Sealed : Type 0
  pub seal : Key → Iv → String → Tag × Sealed
  pub unseal : Key → Iv → Tag → Sealed → Option String
  pub unseal-seal :
      (k : Key) (iv : Iv) (plain : String)
      → unseal k iv (seal k iv plain).0 (seal k iv plain).1 ≡ some plain

-- JSON.stringify and JSON.parse, which throws (`none`) on a malformed text.
pub record JsonText : Type 0 where
  pub stringify : Json → String
  pub parse : String → Option Json
  pub parse-stringify : (j : Json) → parse (stringify j) ≡ some j
  pub stringify_ne_empty : (j : Json) → (stringify j == "") ≡ false
  pub parse_empty_object : parse "{}" ≡ some (object end)
