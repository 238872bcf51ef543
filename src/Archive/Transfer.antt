-- ===== src/Archive/Transfer.antt =====
-- An export of one archive that is imported into another, as in client/electron/archive.ts.
use mathlib.Core.Path.{subst}
use dfchat.Common.{
  ℕ, String, ◌≡◌, ◌∙◌, refl, ap, true, Option, none, some, List, [], ◌∷◌, arith, if◌then◌else◌,
  ◌==◌, eq_iff, find, length, Bool-cases, inl, inr,
}
use dfchat.Archive.{ArchivedMessage, Cipher, JsonText}
use dfchat.Archive.Table.{◌>>=◌, in_export_order, decode}
use dfchat.Archive.Api.{Archive, export_all, append_all, import_messages}
use dfchat.Archive.RoundTrip.{normal}
use dfchat.Archive.Refinement.{View, view, written, spec, append, exec, IsOpen, exec-IsOpen}
use dfchat.Archive.Export.{
  IsTable, AllNew, find-in_export_order, in_export_order-IsTable, in_export_order-IsReadable,
  traverse-decode, length-in_export_order,
}

-- what a map has under an id where a message was imported
abbrev pub written_if : Option ArchivedMessage → Option ArchivedMessage → Option ArchivedMessage
written_if none old = old
written_if (some m) old = some (written (normal m) old)

written_cons :
    (m : ArchivedMessage) (ms : List ArchivedMessage) (v w : View) (j : String)
    → find (λ n. n.id == m.id) ms ≡ none
    → w j ≡ (if m.id == j then some (written (normal m) (v j)) else v j)
    → written_if (find (λ n. n.id == j) ms) (w j)
      ≡ written_if (find (λ n. n.id == j) (m ∷ ms)) (v j)
written_cons m ms v w j new e = elim (Bool-cases (m.id == j)) [
  | inl same ↦
      let at : m.id ≡ j = ground (arith, same, eq_iff m.id j) in
      let gone : find (λ n. n.id == j) ms ≡ none =
        subst (λ i. find (λ n. n.id == i) ms ≡ none) at new in
      rw (same, gone) (e ∙ rw same refl)
  | inr other ↦ rw other (ap (written_if (find (λ n. n.id == j) ms)) (e ∙ rw other refl))
]

module _ {c : Cipher} (js : JsonText) (key : c.Key) where
  -- Appends of messages no two of which have the same id: each is written once.
  view-append_all :
      {Blob : Type 0} (ivs : ℕ → c.Iv) (ms : List ArchivedMessage) (b : Archive c Blob)
      → AllNew ms
      → IsOpen {c = c} js key b
      → (d : Archive c Blob) × (append_all {c = c} js ivs ms b ≡ some d)
        × IsOpen {c = c} js key d
        × ((j : String)
            → view {c = c} js key d.rows j
              ≡ written_if (find (λ m. m.id == j) ms) (view {c = c} js key b.rows j))
  unfolding append_all exec spec
  view-append_all ivs [] b h open_b = (b, refl, open_b, λ j. refl)
  view-append_all ivs (m ∷ ms) b (new, h) open_b =
      let (b', done, open_b', step) =
        exec-IsOpen {c = c} js key (append (ivs (length ms)) m) b open_b in
      let (d, later, open_d, rest) = view-append_all ivs ms b' h open_b' in
      (
        d,
        ap (λ o. o >>= λ e. append_all {c = c} js ivs ms e) done ∙ later,
        open_d,
        λ j.
            rest j
            ∙ written_cons m ms (view {c = c} js key b.rows) (view {c = c} js key b'.rows) j new
                (step j),
      )

module _ {c : Cipher} (js : JsonText) (key : c.Key) where
  -- `exportAll` in one archive and `importMessages` of its messages in another, both open, with
  -- readable rows and under keys of their own: the export has as many messages as there are rows, the
  -- import takes them all, and then the other archive shows under each id of the first the message
  -- that it had (but for what `normal` drops), or where it had one of the id itself that message with
  -- the columns of the other that an append writes, and under any other id what it showed before.
  pub import_messages-export_all :
      {Blob : Type 0} (target : c.Key) (ivs : ℕ → c.Iv) (a b : Archive c Blob)
      → IsOpen {c = c} js key a
      → IsTable a.rows
      → IsOpen {c = c} js target b
      → (ms : List ArchivedMessage) × (d : Archive c Blob) × (export_all {c = c} js a ≡ some ms)
        × (length ms ≡ length a.rows)
        × (import_messages {c = c} js ivs ms b ≡ some (d, length ms))
        × IsOpen {c = c} js target d
        × ((j : String)
            → view {c = c} js target d.rows j
              ≡ written_if (view {c = c} js key a.rows j) (view {c = c} js target b.rows j))
  unfolding export_all import_messages view
  import_messages-export_all target ivs a b open_a table open_b =
      let sorted = in_export_order {c = c} a.rows in
      let (ms, read, new, long, same) =
        traverse-decode {c = c} js key sorted (in_export_order-IsTable {c = c} a.rows table)
          (in_export_order-IsReadable {c = c} js key a.rows open_a.readable) in
      let (d, done, open_d, all_in) = view-append_all {c = c} js target ivs ms b new open_b in
      let opened : b.opened ≡ true = ground (arith, open_b.ready) in
      (
        ms,
        d,
        rw open_a.ready read,
        long ∙ length-in_export_order {c = c} a.rows,
        ap (λ o. if o then (append_all {c = c} js ivs ms b >>= λ e. some (e, length ms)) else none)
              opened
            ∙ ap (λ o. o >>= λ e. some (e, length ms)) done,
        open_d,
        λ j.
            all_in j
            ∙ ap (λ o. written_if o (view {c = c} js target b.rows j))
                (same j
                  ∙ ap (λ o. o >>= decode c js key) (find-in_export_order {c = c} j a.rows table)),
      )
