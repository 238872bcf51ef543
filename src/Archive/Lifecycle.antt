-- ===== src/Archive/Lifecycle.antt =====
-- The data key of client/electron/archive.ts over the launches of the program.
use dfchat.Common.{◌≡◌, ◌≢◌, refl, true, false, some, inl, inr, Bool-cases, Option-cases, is_some}
use dfchat.Archive.{Cipher}
use dfchat.Archive.Key.{
  KeyFile, missing, sealed, plain, broken, SafeStorage, load_or_create_data_key, create_key,
}
use dfchat.Archive.Api.{Archive, open_archive, close}

module _ {Key Blob : Type 0} where
  -- What safeStorage documents: it opens what it sealed.
  abbrev pub Opens : SafeStorage Key Blob → Type 0
  Opens storage = (k : Key) → storage.decrypt (storage.encrypt k) ≡ some k

  -- The file from which a launch with this keychain reads the key.
  abbrev pub Holds : SafeStorage Key Blob → Key → KeyFile Key Blob → Type 0
  Holds storage key (sealed blob) = (storage.available ≡ true) × (storage.decrypt blob ≡ some key)
  Holds storage key (plain k) = k ≡ key
  Holds storage key _ = ⊥

  Holds-create_key :
      (storage : SafeStorage Key Blob) (fresh : Key)
      → Opens storage
      → Holds storage (create_key storage fresh).0 (create_key storage fresh).1
  Holds-create_key storage fresh opens = elim (Bool-cases storage.available) [
    | inl there ↦ rw there (refl, opens fresh)
    | inr gone ↦ rw gone refl
  ]

  Holds-load :
      (storage : SafeStorage Key Blob) (file : KeyFile Key Blob) (fresh : Key)
      → Opens storage
      → Holds storage
          (load_or_create_data_key storage file fresh).0
          (load_or_create_data_key storage file fresh).1
  unfolding load_or_create_data_key
  Holds-load storage missing fresh opens = Holds-create_key storage fresh opens
  Holds-load storage (sealed blob) fresh opens = elim (Bool-cases storage.available) [
    | inl there ↦ elim (Option-cases (storage.decrypt blob)) [
      | inl failed ↦ rw (there, failed) (refl, opens fresh)
      | inr (key, e) ↦ rw (there, e) (refl, e)
    ]
    | inr gone ↦ rw gone refl
  ]
  Holds-load storage (plain key) fresh opens = refl
  Holds-load storage broken fresh opens = Holds-create_key storage fresh opens

  load_of_Holds :
      (storage : SafeStorage Key Blob) (file : KeyFile Key Blob) (key fresh : Key)
      → Holds storage key file
      → load_or_create_data_key storage file fresh ≡ (key, file)
  unfolding load_or_create_data_key
  load_of_Holds storage missing key fresh h = absurd h
  load_of_Holds storage (sealed blob) key fresh (there, e) = rw (there, e)
  load_of_Holds storage (plain k) key fresh h = rw h
  load_of_Holds storage broken key fresh h = absurd h

module _ {c : Cipher} {Blob : Type 0} where
  -- Whatever the key file held, and whether a keychain is there or not, a launch that opens the
  -- archive uses a key that the next launch finds again under the same keychain: the same key is in
  -- use after `close` and a second `open`, no row has changed, and the second random key is not used.
  pub open-close_open :
      (storage : SafeStorage c.Key Blob) (fresh again : c.Key) (a : Archive c Blob)
      → Opens storage
      → a.opened ≡ false
      → let b = open_archive {c = c} storage fresh a in
        let d = open_archive {c = c} storage again (close {c = c} b) in
        (d.data_key ≡ b.data_key)
        × (is_some d.data_key ≡ true)
        × (d.rows ≡ a.rows)
        × (d.key_file ≡ b.key_file)
  unfolding open_archive close
  open-close_open storage fresh again a opens shut =
      let loaded = load_or_create_data_key storage a.key_file fresh in
      rw
        (
          shut,
          load_of_Holds storage loaded.1 loaded.0 again (Holds-load storage a.key_file fresh opens),
        )
        (refl, refl, refl, refl)

  -- A launch that finds a sealed key file and no keychain writes a new key over it: the file holds
  -- the random key in plain afterwards, so that no later launch, with a keychain or without, has the
  -- key under which the rows were sealed, unless the random key is that key.
  pub open_without_keychain :
      (storage later : SafeStorage c.Key Blob) (blob : Blob) (key fresh again : c.Key)
      (a : Archive c Blob)
      → a.opened ≡ false
      → a.key_file ≡ sealed blob
      → storage.available ≡ false
      → key ≢ fresh
      → let b = open_archive {c = c} storage fresh a in
        let d = open_archive {c = c} later again (close {c = c} b) in
        (b.key_file ≡ plain fresh) × (b.data_key ≢ some key) × (d.data_key ≢ some key)
  unfolding open_archive close load_or_create_data_key
  open_without_keychain storage later blob key fresh again a shut file gone other =
      rw (shut, file, gone) (refl, (λ e. other (cc)), (λ e. other (cc)))
