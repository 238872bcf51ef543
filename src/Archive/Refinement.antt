-- ===== src/Archive/Refinement.antt =====
-- The archive as a map from message ids to messages, and its writes as writes of that map.
use mathlib.Core.Option
use mathlib.Core.Path.{fun_ext}
use mathlib.Core.List.{foldl}
use dfchat.Common.{
  String, ◌≡◌, ◌∙◌, refl, ap, true, false, Option, none, some, List, [], ◌∷◌, arith, if◌then◌else◌,
  ◌==◌, eq_iff, find, Bool-cases, inl, inr,
}
use dfchat.Types.{object, end}
use dfchat.Archive.{ArchivedMessage, Cipher, JsonText}
use dfchat.Archive.Table.{
  ◌>>=◌, Row, overwrite_row, upsert, set_recalled, delete_row, encode, decode,
}
use dfchat.Archive.Api.{Archive, ready, append_message, mark_recalled, remove}
use dfchat.Archive.RoundTrip.{
  normal, decode-encode, decode-overwrite_row-encode, decode_columns, decode-recall_row, id-encode,
}

abbrev pub View : Type 0
View = String → Option ArchivedMessage

-- What a second append of an id leaves: the columns of the first insert that stmtUpsert does not set
-- stay.
abbrev pub overwrite : ArchivedMessage → ArchivedMessage → ArchivedMessage
overwrite old new = record old {
  content = new.content;
  mentions = new.mentions;
  reply_to = new.reply_to;
  is_recalled = new.is_recalled;
  edited_at = new.edited_at;
  edit_count = new.edit_count;
}

abbrev pub recalled : ArchivedMessage → ArchivedMessage
recalled old = record old { content = object end; is_recalled = true }

abbrev pub written : ArchivedMessage → Option ArchivedMessage → ArchivedMessage
written new none = new
written new (some old) = overwrite old new

-- A write of the archive, with the nonce that it draws.
pub data Write (c : Cipher) : Type 0 where
  append : c.Iv → ArchivedMessage → Write c
  recall : c.Iv → String → Write c
  drop_id : String → Write c

-- What a write does to the map.
unfoldable pub spec : {c : Cipher} → Write c → View → View
spec (append iv m) v j = if m.id == j then some (written (normal m) (v j)) else v j
spec (recall iv id) v j = if id == j then Option.map recalled (v j) else v j
spec (drop_id id) v j = if id == j then none else v j

module _ {c : Cipher} {Blob : Type 0} (js : JsonText) where
  unfoldable pub exec : Write c → Archive c Blob → Option (Archive c Blob)
  exec (append iv m) a = append_message js iv m a
  exec (recall iv id) a = mark_recalled iv id a
  exec (drop_id id) a = remove id a

  -- Before `open` and after `close` every write throws.
  pub exec_closed : (w : Write c) (a : Archive c Blob) → a.opened ≡ false → exec w a ≡ none
  unfolding exec append_message mark_recalled remove
  exec_closed (append iv m) a h = rw h
  exec_closed (recall iv id) a h = rw h
  exec_closed (drop_id id) a h = rw h

module _ {c : Cipher} (js : JsonText) (key : c.Key) where
  -- The message that the table holds under an id.
  unfoldable pub view : List (Row c) → View
  view rows j = find (λ r. r.id == j) rows >>= λ r. decode c js key r

  -- Every row opens under the key.
  abbrev pub IsReadable : List (Row c) → Type 0
  IsReadable [] = Unit {0}
  IsReadable (r ∷ rows) = ((m : ArchivedMessage) × (decode c js key r ≡ some m)) × IsReadable rows

  decode-overwrite_row :
      (iv : c.Iv) (m old : ArchivedMessage) (r : Row c)
      → decode c js key r ≡ some old
      → decode c js key (overwrite_row {c = c} r (encode c js key iv m))
        ≡ some (overwrite old (normal m))
  decode-overwrite_row iv m old r e =
      ground (arith, decode-overwrite_row-encode c js key iv r m, decode_columns c js key r old e)

  view-upsert :
      (iv : c.Iv) (m : ArchivedMessage) (rows : List (Row c)) (j : String)
      → IsReadable rows
      → view (upsert {c = c} (encode c js key iv m) rows) j
        ≡ spec {c = c} (append iv m) (view rows) j
  unfolding view upsert spec
  view-upsert iv m [] j h =
      ground (arith, id-encode c js key iv m, decode-encode c js key iv m, eq_iff m.id j)
  view-upsert iv m (r ∷ rows) j ((old, e), h) = ground (
    arith,
    id-encode c js key iv m,
    decode-encode c js key iv m,
    decode-overwrite_row iv m old r e,
    eq_iff r.id m.id,
    eq_iff m.id j,
    eq_iff r.id j,
    view-upsert iv m rows j h,
  )

  view-set_recalled :
      (iv : c.Iv) (id : String) (rows : List (Row c)) (j : String)
      → IsReadable rows
      → view (set_recalled {c = c} id iv (c.seal key iv "{}").0 (c.seal key iv "{}").1 rows) j
        ≡ spec {c = c} (recall iv id) (view rows) j
  unfolding view set_recalled spec
  view-set_recalled iv id [] j h = ground arith
  view-set_recalled iv id (r ∷ rows) j ((old, e), h) = ground (
    arith,
    decode-recall_row c js key iv r old e,
    eq_iff r.id id,
    eq_iff id j,
    eq_iff r.id j,
    view-set_recalled iv id rows j h,
  )

  view-delete_row :
      (id : String) (rows : List (Row c)) (j : String)
      → view (delete_row {c = c} id rows) j ≡ spec {c = c} (drop_id id) (view rows) j
  unfolding view delete_row spec
  view-delete_row id [] j = ground arith
  view-delete_row id (r ∷ rows) j =
      ground (arith, eq_iff r.id id, eq_iff id j, eq_iff r.id j, view-delete_row id rows j)

  upsert-IsReadable :
      (iv : c.Iv) (m : ArchivedMessage) (rows : List (Row c))
      → IsReadable rows
      → IsReadable (upsert {c = c} (encode c js key iv m) rows)
  unfolding upsert
  upsert-IsReadable iv m [] h = ((normal m, decode-encode c js key iv m), tt)
  upsert-IsReadable iv m (r ∷ rows) ((old, e), h) =
      elim (Bool-cases (r.id == (encode c js key iv m).id)) [
        | inl same ↦ rw same ((overwrite old (normal m), decode-overwrite_row iv m old r e), h)
        | inr other ↦ rw other ((old, e), upsert-IsReadable iv m rows h)
      ]

  set_recalled-IsReadable :
      (iv : c.Iv) (id : String) (rows : List (Row c))
      → IsReadable rows
      → IsReadable (set_recalled {c = c} id iv (c.seal key iv "{}").0 (c.seal key iv "{}").1 rows)
  unfolding set_recalled
  set_recalled-IsReadable iv id [] h = tt
  set_recalled-IsReadable iv id (r ∷ rows) ((old, e), h) = elim (Bool-cases (r.id == id)) [
    | inl same ↦ rw same (
      (recalled old, decode-recall_row c js key iv r old e),
      set_recalled-IsReadable iv id rows h,
    )
    | inr other ↦ rw other ((old, e), set_recalled-IsReadable iv id rows h)
  ]

  delete_row-IsReadable :
      (id : String) (rows : List (Row c))
      → IsReadable rows
      → IsReadable (delete_row {c = c} id rows)
  unfolding delete_row
  delete_row-IsReadable id [] h = tt
  delete_row-IsReadable id (r ∷ rows) (x, h) = elim (Bool-cases (r.id == id)) [
    | inl same ↦ rw same (delete_row-IsReadable id rows h)
    | inr other ↦ rw other (x, delete_row-IsReadable id rows h)
  ]

  module _ {Blob : Type 0} where
    -- A state in which the archive is open under the key and all its rows can be read.
    pub record IsOpen (a : Archive c Blob) : Type 0 where
      pub ready : ready {c = c} a ≡ some key
      pub readable : IsReadable a.rows

    pub exec-IsOpen :
        (w : Write c) (a : Archive c Blob)
        → IsOpen a
        → (b : Archive c Blob) × (exec {c = c} js w a ≡ some b)
          × IsOpen b
          × ((j : String) → view b.rows j ≡ spec {c = c} w (view a.rows) j)
    unfolding exec append_message mark_recalled remove
    exec-IsOpen (append iv m) a h = (
      record a { rows = upsert {c = c} (encode c js key iv m) a.rows },
      rw h.ready,
      record { ready = h.ready; readable = upsert-IsReadable iv m a.rows h.readable },
      λ j. view-upsert iv m a.rows j h.readable,
    )
    exec-IsOpen (recall iv id) a h = (
      record a {
        rows = set_recalled {c = c} id iv (c.seal key iv "{}").0 (c.seal key iv "{}").1 a.rows;
      },
      rw h.ready,
      record { ready = h.ready; readable = set_recalled-IsReadable iv id a.rows h.readable },
      λ j. view-set_recalled iv id a.rows j h.readable,
    )
    exec-IsOpen (drop_id id) a h = (
      record a { rows = delete_row {c = c} id a.rows },
      ground (arith, h.ready),
      record { ready = h.ready; readable = delete_row-IsReadable id a.rows h.readable },
      λ j. view-delete_row id a.rows j,
    )

    -- Writes in their order; the first that throws stops the rest.
    unfoldable pub exec_all : List (Write c) → Archive c Blob → Option (Archive c Blob)
    exec_all [] a = some a
    exec_all (w ∷ ws) a = exec {c = c} js w a >>= λ b. exec_all ws b

    -- On an open archive with readable rows any writes succeed, keep it so, and change the map from
    -- ids to messages as the same writes of a plain map do: an append stores the message (over an
    -- older one, all but its conversation, sender, type, number and time), a recall empties the
    -- content and sets the flag, a removal drops the entry, and no other id changes.
    pub exec_all-view :
        (ws : List (Write c)) (a : Archive c Blob)
        → IsOpen a
        → (b : Archive c Blob) × (exec_all ws a ≡ some b)
          × IsOpen b
          × ((j : String) → view b.rows j ≡ foldl (λ v w. spec {c = c} w v) (view a.rows) ws j)
    unfolding exec_all
    exec_all-view [] a h = (a, refl, h, λ j. refl)
    exec_all-view (w ∷ ws) a h =
        let (b, done, open_b, step) = exec-IsOpen w a h in
        let (d, later, open_d, rest) = exec_all-view ws b open_b in
        (
          d,
          rw done later,
          open_d,
          λ j. rest j ∙ ap (λ v. foldl (λ v w. spec {c = c} w v) v ws j) (fun_ext step),
        )
