-- ===== src/Archive/Export.antt =====
-- What `exportAll` of client/electron/archive.ts reads off the table.
use dfchat.Common.{
  String, ◌≡◌, ◌∙◌, refl, ap, false, none, some, List, [], ◌∷◌, arith, if◌then◌else◌, suc, ◌==◌,
  eq_iff, find, length, Bool-cases, inl, inr,
}
use dfchat.Archive.{ArchivedMessage, Cipher, JsonText}
use dfchat.Archive.Table.{traverse, Row, leb_export, insert_exported, in_export_order, decode}
use dfchat.Archive.RoundTrip.{decode_columns}
use dfchat.Archive.Refinement.{view, IsReadable}

-- No message of the list has the id of one before it.
abbrev pub AllNew : List ArchivedMessage → Type 0
AllNew [] = Unit {0}
AllNew (m ∷ ms) = (find (λ n. n.id == m.id) ms ≡ none) × AllNew ms

module _ {c : Cipher} where
  -- No id stands twice, as PRIMARY KEY has it.
  abbrev pub IsTable : List (Row c) → Type 0
  IsTable [] = Unit {0}
  IsTable (r ∷ rows) = (find (λ s. s.id == r.id) rows ≡ none) × IsTable rows

  find-insert_exported :
      (j : String) (r : Row c) (rows : List (Row c))
      → find (λ s. s.id == r.id) rows ≡ none
      → find (λ s. s.id == j) (insert_exported {c = c} r rows)
        ≡ (if r.id == j then some r else find (λ s. s.id == j) rows)
  find-insert_exported j r [] h = refl
  find-insert_exported j r (s ∷ rows) h = elim (Bool-cases (leb_export {c = c} r s)) [
    | inl e ↦ rw e refl
    | inr e ↦ rw e (
        ground
          (arith, h, eq_iff r.id j, eq_iff s.id j, eq_iff s.id r.id, find-insert_exported j r rows))
  ]

  pub find-in_export_order :
      (j : String) (rows : List (Row c))
      → IsTable rows
      → find (λ s. s.id == j) (in_export_order {c = c} rows) ≡ find (λ s. s.id == j) rows
  unfolding in_export_order
  find-in_export_order j [] h = refl
  find-in_export_order j (r ∷ rows) (new, h) =
      find-insert_exported j r (in_export_order {c = c} rows)
        (find-in_export_order r.id rows h ∙ new)
      ∙ ap (λ o. if r.id == j then some r else o) (find-in_export_order j rows h)

  insert_exported-IsTable :
      (r : Row c) (rows : List (Row c))
      → find (λ s. s.id == r.id) rows ≡ none
      → IsTable rows
      → IsTable (insert_exported {c = c} r rows)
  insert_exported-IsTable r [] new h = (refl, tt)
  insert_exported-IsTable r (s ∷ rows) new (new', h) = elim (Bool-cases (leb_export {c = c} r s)) [
    | inl e ↦ rw e (new, (new', h))
    | inr e ↦
        let later : find (λ t. t.id == r.id) rows ≡ none = ground (arith, new) in
        let other : (r.id == s.id) ≡ false =
          ground (arith, new, eq_iff r.id s.id, eq_iff s.id r.id) in
        rw e (
          find-insert_exported s.id r rows later ∙ rw other new',
          insert_exported-IsTable r rows later h,
        )
  ]

  pub in_export_order-IsTable :
      (rows : List (Row c)) → IsTable rows → IsTable (in_export_order {c = c} rows)
  unfolding in_export_order
  in_export_order-IsTable [] h = tt
  in_export_order-IsTable (r ∷ rows) (new, h) =
      insert_exported-IsTable r (in_export_order {c = c} rows)
        (find-in_export_order r.id rows h ∙ new) (in_export_order-IsTable rows h)

  length-insert_exported :
      (r : Row c) (rows : List (Row c))
      → length (insert_exported {c = c} r rows) ≡ suc (length rows)
  length-insert_exported r [] = refl
  length-insert_exported r (s ∷ rows) = elim (Bool-cases (leb_export {c = c} r s)) [
    | inl e ↦ rw e refl
    | inr e ↦ rw e (ap suc (length-insert_exported r rows))
  ]

  pub length-in_export_order :
      (rows : List (Row c)) → length (in_export_order {c = c} rows) ≡ length rows
  unfolding in_export_order
  length-in_export_order [] = refl
  length-in_export_order (r ∷ rows) =
      length-insert_exported r (in_export_order {c = c} rows) ∙ ap suc (length-in_export_order rows)

  module _ (js : JsonText) (key : c.Key) where
    insert_exported-IsReadable :
        (r : Row c) (rows : List (Row c))
        → (m : ArchivedMessage) × (decode c js key r ≡ some m)
        → IsReadable {c = c} js key rows
        → IsReadable {c = c} js key (insert_exported {c = c} r rows)
    insert_exported-IsReadable r [] e h = (e, tt)
    insert_exported-IsReadable r (s ∷ rows) e (e', h) = elim (Bool-cases (leb_export {c = c} r s)) [
      | inl b ↦ rw b (e, (e', h))
      | inr b ↦ rw b (e', insert_exported-IsReadable r rows e h)
    ]

    pub in_export_order-IsReadable :
        (rows : List (Row c))
        → IsReadable {c = c} js key rows
        → IsReadable {c = c} js key (in_export_order {c = c} rows)
    unfolding in_export_order
    in_export_order-IsReadable [] h = tt
    in_export_order-IsReadable (r ∷ rows) (e, h) =
        insert_exported-IsReadable r (in_export_order {c = c} rows) e
          (in_export_order-IsReadable rows h)

    -- What a table without repetitions gives when all its rows are read.
    pub traverse-decode :
        (rows : List (Row c))
        → IsTable rows
        → IsReadable {c = c} js key rows
        → (ms : List ArchivedMessage) × (traverse (decode c js key) rows ≡ some ms)
          × AllNew ms
          × (length ms ≡ length rows)
          × ((j : String) → find (λ m. m.id == j) ms ≡ view {c = c} js key rows j)
    unfolding view
    traverse-decode [] t h = ([], refl, tt, refl, λ j. refl)
    traverse-decode (r ∷ rows) (new, t) ((m, e), h) =
        let (ms, done, fresh, long, same) = traverse-decode rows t h in
        let id : m.id ≡ r.id = (decode_columns c js key r m e).0 in
        (
          m ∷ ms,
          rw (e, done) refl,
          (same m.id ∙ ground (arith, id, new), fresh),
          ap suc long,
          λ j. ground (arith, same j, id, e),
        )
