-- ===== src/Desktop/Reopened.antt =====
-- client/electron/main.ts: the archive after the last window has closed.
use dfchat.Common.{ℕ, String, Bool, false, Option, none, some, List, [], ◌∷◌, ◌≡◌, refl, arith}
use dfchat.Archive.{ArchivedMessage, Cipher, JsonText}
use dfchat.Archive.Table.{Row}
use dfchat.Archive.Api.{
  close, append_message, mark_recalled, remove, query_by_conv, max_seq, export_all, import_messages,
}
use dfchat.Desktop.{
  Platform, darwin, Desktop, show_or_create_window, on_notification_click, minimize,
  maximize_toggle, on_popout, on_all_closed, on_closed, on_popout_closed, before_quit,
  archive_append, archive_mark_recalled, archive_remove, archive_query_by_conv, archive_max_seq,
  archive_export, archive_import,
}

-- What happens to the program between two launches.
pub data Event (Iv : Type 0) : Type 0 where
  activates minimizes maximizes pops_out closes popout_closes quits : Event Iv
  clicks : Option String → Event Iv
  appends : JsonText → Iv → ArchivedMessage → Event Iv
  recalls : Iv → String → Event Iv
  removes : String → Event Iv
  queries : JsonText → String → ℕ → Option ℕ → Event Iv
  asks_max : String → Event Iv
  exports : JsonText → Bool → Event Iv
  imports : JsonText → (ℕ → Iv) → Option (List ArchivedMessage) → Event Iv

module _ {c : Cipher} {Blob : Type 0} where
  open c use {Iv}

  unfoldable pub step : Platform → Event Iv → Desktop c Blob → Desktop c Blob
  step p activates d = show_or_create_window d
  step p minimizes d = minimize d
  step p maximizes d = maximize_toggle d
  step p pops_out d = on_popout d
  step p closes d = on_closed p d
  step p popout_closes d = on_popout_closed p d
  step p quits d = before_quit d
  step p (clicks conv) d = (on_notification_click conv d).0
  step p (appends js iv msg) d = archive_append js iv msg d
  step p (recalls iv id) d = archive_mark_recalled iv id d
  step p (removes id) d = archive_remove id d
  step p (queries js conv limit before) d = (archive_query_by_conv js conv limit before d).0
  step p (asks_max conv) d = (archive_max_seq conv d).0
  step p (exports js chosen) d = (archive_export js chosen d).0
  step p (imports js ivs msgs) d = (archive_import js ivs msgs d).0

  unfoldable pub run : Platform → List (Event Iv) → Desktop c Blob → Desktop c Blob
  run p [] d = d
  run p (e ∷ es) d = run p es (step p e d)

  -- The archive is closed over these rows.
  abbrev pub IsShut : List (Row c) → Desktop c Blob → Type 0
  IsShut rows d = (d.archive.opened ≡ false) × (d.archive.rows ≡ rows)

  step-IsShut :
      (p : Platform) (e : Event Iv) (rows : List (Row c)) (d : Desktop c Blob)
      → IsShut rows d
      → IsShut rows (step p e d)
  unfolding step show_or_create_window minimize maximize_toggle on_closed on_popout_closed
      on_all_closed before_quit on_notification_click archive_append archive_mark_recalled
      archive_remove archive_query_by_conv archive_max_seq archive_export archive_import
      append_message mark_recalled remove query_by_conv max_seq export_all import_messages close
  step-IsShut p activates rows d h = ground (arith, h.0, h.1)
  step-IsShut p minimizes rows d h = ground (arith, h.0, h.1)
  step-IsShut p maximizes rows d h = ground (arith, h.0, h.1)
  step-IsShut p pops_out rows d h = h
  step-IsShut p closes rows d h = ground (arith, h.0, h.1)
  step-IsShut p popout_closes rows d h = ground (arith, h.0, h.1)
  step-IsShut p quits rows d h = (refl, h.1)
  step-IsShut p (clicks conv) rows d h = ground (arith, h.0, h.1)
  step-IsShut p (appends js iv msg) rows d h = ground (arith, h.0, h.1)
  step-IsShut p (recalls iv id) rows d h = ground (arith, h.0, h.1)
  step-IsShut p (removes id) rows d h = ground (arith, h.0, h.1)
  step-IsShut p (queries js conv limit before) rows d h = ground (arith, h.0, h.1)
  step-IsShut p (asks_max conv) rows d h = ground (arith, h.0, h.1)
  step-IsShut p (exports js chosen) rows d h = ground (arith, h.0, h.1)
  step-IsShut p (imports js ivs none) rows d h = h
  step-IsShut p (imports js ivs (some msgs)) rows d h = ground (arith, h.0, h.1)

  run-IsShut :
      (p : Platform) (es : List (Event Iv)) (rows : List (Row c)) (d : Desktop c Blob)
      → IsShut rows d
      → IsShut rows (run p es d)
  unfolding run
  run-IsShut p [] rows d h = h
  run-IsShut p (e ∷ es) rows d h = run-IsShut p es rows (step p e d) (step-IsShut p e rows d h)

  -- After the last window has closed on macOS, where the program goes on, nothing that happens before the
  -- next launch opens the archive again: whatever windows come back and messages come in, its rows stay
  -- those of the closing, and a query answers nothing and the highest number 0.
  pub run-on_all_closed :
      (es : List (Event Iv)) (d : Desktop c Blob) (js : JsonText) (conv_id : String) (limit : ℕ)
      (before : Option ℕ)
      → let e = run darwin es (on_all_closed darwin d) in
        ((on_all_closed darwin d).is_running ≡ d.is_running)
        × (e.archive.rows ≡ d.archive.rows)
        × ((archive_query_by_conv js conv_id limit before e).1 ≡ [])
        × ((archive_max_seq conv_id e).1 ≡ 0)
  unfolding on_all_closed close archive_query_by_conv archive_max_seq query_by_conv max_seq
  run-on_all_closed es d js conv_id limit before =
      let shut = run-IsShut darwin es d.archive.rows (on_all_closed darwin d) (refl, refl) in
      (ground arith, shut.1, ground (arith, shut.0), ground (arith, shut.0))
