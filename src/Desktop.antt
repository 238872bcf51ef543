-- ===== src/Desktop.antt =====
-- client/electron/main.ts: windows, the channels of the archive and of the platform, and the life of the
-- program. A channel that throws inside is caught, logged under its name and answers a default.
pub mod Reopened
use dfchat.Common.{
  ℕ, suc, ◌-◌, String, Bool, true, false, not, ◌&&◌, ◌||◌, Option, none, some, List, [], ◌∷◌, ltb,
  nat_eq, if◌then◌else◌, ◌or_else◌, ◌==◌, is_some,
}
use dfchat.Archive.{ArchivedMessage, Cipher, JsonText}
use dfchat.Archive.Key.{SafeStorage}
use dfchat.Archive.Api.{
  Archive, open_archive, close, append_message, mark_recalled, remove, query_by_conv, max_seq,
  export_all, import_messages,
}
use dfchat.Updates.{if_filled}

pub data Platform : Type 0 where
  darwin win32 linux : Platform

abbrev pub is_darwin : Platform → Bool
is_darwin darwin = true
is_darwin win32 = false
is_darwin linux = false

pub record Window : Type 0 where
  pub minimized : Bool
  pub maximized : Bool
  pub visible : Bool
  pub focused : Bool

abbrev pub new_window : Window
new_window = record { minimized = false; maximized = false; visible = true; focused = true }

-- The program: `child_windows` counts the popouts, `crashes` are the sources in the log, the latest first.
pub record Desktop (c : Cipher) (Blob : Type 0) : Type 0 where
  pub archive : Archive c Blob
  pub main_window : Option Window
  pub child_windows : ℕ
  pub is_running : Bool
  pub crashes : List String

-- `isInternalURL`, where `pathname` is that of `new URL(url)` (none if it throws), `normal` is
-- path.normalize, `expected` the index.html that is packaged, and `starts` and `ends` are startsWith and
-- endsWith.
unfoldable pub is_internal_url :
    (starts ends : String → String → Bool) (pathname : String → Option String)
    (normal : String → String) (expected : String) (dev_server : Option String) (url : String)
    → Bool
is_internal_url starts ends pathname normal expected (some server) url = starts url server
is_internal_url starts ends pathname normal expected none url =
    let packaged : Bool = elim (pathname url) [
      | none ↦ false
      | some p ↦ (normal p == normal expected) || ends p "/dist/index.html"
    ] in
    starts url "file://" && packaged

-- `handleWindowOpen`
pub data Opening : Type 0 where
  external popout : Opening

unfoldable pub handle_window_open : (is_internal : Bool) → Opening
handle_window_open is_internal = if is_internal then popout else external

-- 'badge:set' on macOS, where `show` is a number in digits
unfoldable pub badge_text : (show : ℕ → String) → ℕ → String
badge_text show count = if ltb 0 count then (if ltb 99 count then "99+" else show count) else ""

-- 'update:install'
unfoldable pub update_url : Option String → String
update_url download_url = if_filled download_url "https://dfchat.chat/#download"

module _ {c : Cipher} {Blob : Type 0} where
  open c use {Key, Iv}

  unfoldable pub show_or_create_window : Desktop c Blob → Desktop c Blob
  show_or_create_window d = elim d.main_window [
    | some w ↦ record d {
      main_window = some (record w { minimized = false; visible = true; focused = true });
    }
    | none ↦ record d { main_window = some new_window }
  ]

  -- the click on a notification: the conversation that the window is told to show
  unfoldable pub on_notification_click :
      (conversation_id : Option String) → Desktop c Blob → Desktop c Blob × Option String
  on_notification_click conversation_id d = (show_or_create_window d, conversation_id)

  unfoldable pub is_focused : Desktop c Blob → Bool
  is_focused d = elim d.main_window [ none ↦ false | some w ↦ w.focused && w.visible ]

  unfoldable pub minimize : Desktop c Blob → Desktop c Blob
  minimize d = elim d.main_window [
    | none ↦ d
    | some w ↦ record d { main_window = some (record w { minimized = true; focused = false }) }
  ]

  unfoldable pub maximize_toggle : Desktop c Blob → Desktop c Blob
  maximize_toggle d = elim d.main_window [
    | none ↦ d
    | some w ↦ record d { main_window = some (record w { maximized = not w.maximized }) }
  ]

  -- 'browser-window-created' for a popout
  abbrev pub on_popout : Desktop c Blob → Desktop c Blob
  on_popout d = record d { child_windows = suc d.child_windows }

  -- 'window-all-closed'
  unfoldable pub on_all_closed : Platform → Desktop c Blob → Desktop c Blob
  on_all_closed platform d = record d {
    archive = close d.archive;
    is_running = d.is_running && is_darwin platform;
  }

  abbrev pub after_closed : Platform → Desktop c Blob → Desktop c Blob
  after_closed platform d =
      if not (is_some d.main_window) && nat_eq d.child_windows 0
      then on_all_closed platform d
      else d

  -- 'closed' of the main window and of a popout
  unfoldable pub on_closed : Platform → Desktop c Blob → Desktop c Blob
  on_closed platform d =
      if is_some d.main_window then after_closed platform (record d { main_window = none }) else d

  unfoldable pub on_popout_closed : Platform → Desktop c Blob → Desktop c Blob
  on_popout_closed platform d =
      if nat_eq d.child_windows 0
      then d
      else after_closed platform (record d { child_windows = d.child_windows - 1 })

  -- `whenReady`
  unfoldable pub when_ready : SafeStorage Key Blob → Key → Desktop c Blob → Desktop c Blob
  when_ready storage fresh d =
      show_or_create_window
        (record d { archive = open_archive storage fresh d.archive; is_running = true })

  -- 'before-quit'
  unfoldable pub before_quit : Desktop c Blob → Desktop c Blob
  before_quit d = record d { archive = close d.archive }

  abbrev pub log_crash : String → Desktop c Blob → Desktop c Blob
  log_crash source d = record d { crashes = source ∷ d.crashes }

  -- A write, which is caught where it throws.
  abbrev pub written : String → Option (Archive c Blob) → Desktop c Blob → Desktop c Blob
  written source none d = log_crash source d
  written source (some a) d = record d { archive = a }

  unfoldable pub archive_append : JsonText → Iv → ArchivedMessage → Desktop c Blob → Desktop c Blob
  archive_append js iv msg d = written "archive:append" (append_message js iv msg d.archive) d

  unfoldable pub archive_mark_recalled : Iv → String → Desktop c Blob → Desktop c Blob
  archive_mark_recalled iv message_id d =
      written "archive:markRecalled" (mark_recalled iv message_id d.archive) d

  unfoldable pub archive_remove : String → Desktop c Blob → Desktop c Blob
  archive_remove message_id d = written "archive:remove" (remove message_id d.archive) d

  unfoldable pub archive_query_by_conv :
      JsonText → String → ℕ → Option ℕ → Desktop c Blob → Desktop c Blob × List ArchivedMessage
  archive_query_by_conv js conv_id limit before_seq d =
      elim (query_by_conv js conv_id limit before_seq d.archive) [
        | none ↦ (log_crash "archive:queryByConv" d, [])
        | some msgs ↦ (d, msgs)
      ]

  unfoldable pub archive_max_seq : String → Desktop c Blob → Desktop c Blob × ℕ
  archive_max_seq conv_id d = elim (max_seq conv_id d.archive) [
    | none ↦ (log_crash "archive:maxSeq" d, 0)
    | some n ↦ (d, n)
  ]

  -- 'archive:export' and 'archive:import' on the file that the dialog gives, if it does: the messages
  -- that are written out, or the number of those that are taken in
  unfoldable pub archive_export :
      JsonText → (chosen : Bool) → Desktop c Blob → Desktop c Blob × Option (List ArchivedMessage)
  archive_export js chosen d =
      let asked =
        elim (export_all js d.archive) as (λ o. Desktop c Blob × Option (List ArchivedMessage)) [
          | none ↦ (log_crash "archive:export" d, none)
          | some msgs ↦ (d, some msgs)
        ] in
      if is_some d.main_window && chosen then asked else (d, none)

  unfoldable pub archive_import :
      JsonText
      → (ℕ → Iv)
      → Option (List ArchivedMessage)
      → Desktop c Blob
      → Desktop c Blob × Option ℕ
  archive_import js ivs none d = (d, none)
  archive_import js ivs (some msgs) d =
      let taken = elim (import_messages js ivs msgs d.archive) as (λ o. Desktop c Blob × Option ℕ) [
        | none ↦ (log_crash "archive:import" d, none)
        | some r ↦ (record d { archive = r.0 }, some r.1)
      ] in
      if is_some d.main_window then taken else (d, none)
