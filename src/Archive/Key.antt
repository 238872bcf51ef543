-- ===== src/Archive/Key.antt =====
-- `loadOrCreateDataKey` of client/electron/archive.ts: the key file and the keychain that seals it.
use dfchat.Common.{Bool, true, false, Option, none, some}

-- The key file: missing, a blob that the keychain sealed, the plain JSON wrapper with its field `k`,
-- or a text that starts with `{` and holds no such field.
pub data KeyFile (Key Blob : Type 0) : Type 0 where
  missing : KeyFile Key Blob
  sealed : Blob → KeyFile Key Blob
  plain : Key → KeyFile Key Blob
  broken : KeyFile Key Blob

-- Electron's safeStorage: whether the keychain is there, `encryptString`, and `decryptString`, which
-- throws (`none`) on a blob that it cannot open.
pub record SafeStorage (Key Blob : Type 0) : Type 0 where
  pub available : Bool
  pub encrypt : Key → Blob
  pub decrypt : Blob → Option Key

module _ {Key Blob : Type 0} (storage : SafeStorage Key Blob) where
  abbrev pub create_key : Key → Key × KeyFile Key Blob
  create_key fresh = (
    fresh,
    elim storage.available [ true ↦ sealed (storage.encrypt fresh) | false ↦ plain fresh ],
  )

  abbrev unwrapped_or_created : Option Key → Blob → Key → Key × KeyFile Key Blob
  unwrapped_or_created none blob fresh = create_key fresh
  unwrapped_or_created (some key) blob fresh = (key, sealed blob)

  -- The key in use and the file as it stands afterwards. `fresh` is what `randomBytes` gives. A
  -- sealed blob is no JSON text, so where it is not unsealed a new key is written.
  unfoldable pub load_or_create_data_key : KeyFile Key Blob → Key → Key × KeyFile Key Blob
  load_or_create_data_key missing fresh = create_key fresh
  load_or_create_data_key (sealed blob) fresh = elim storage.available [
    | true ↦ unwrapped_or_created (storage.decrypt blob) blob fresh
    | false ↦ create_key fresh
  ]
  load_or_create_data_key (plain key) fresh = (key, plain key)
  load_or_create_data_key broken fresh = create_key fresh
