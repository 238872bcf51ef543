-- ===== src/Tests/Archives.antt =====
-- The archive under a cipher and texts that can be computed with.
use mathlib.Core.List.{foldl}
use dfchat.Common.{
  ℕ, String, ◌≡◌, ◌≢◌, refl, true, false, none, some, List, [], ◌∷◌, map, reverse, arith, is_some,
  length,
}
use dfchat.Common.Dict.{get, put}
use dfchat.Types.{ChatMessage}
use dfchat.Archive.{ArchivedMessage}
use dfchat.Archive.Key.{SafeStorage, missing, sealed, plain}
use dfchat.Archive.Table.{encode, decode}
use dfchat.Archive.Api.{Archive, open_archive, close, query_by_conv, export_all, import_messages}
use dfchat.Archive.Refinement
use dfchat.Archive.Refinement.{
  Write, append, recall, drop_id, exec_all, view, spec, IsOpen, written,
}
use dfchat.Archive.Lifecycle
use dfchat.Archive.Pages
use dfchat.Archive.Table.{Row, traverse}
use mathlib.Core.List.{Perm}
use dfchat.Common.{◌++◌, min, max, length, if◌then◌else◌, ◌==◌}
use dfchat.Archive.RoundTrip
use dfchat.Archive.RoundTrip.{normal}
use dfchat.Archive.Transfer
use dfchat.Chat.{to_archived}
use dfchat.Chat
use dfchat.Chat.Messages.{append_message, replace_message, remove_message}
use dfchat.Chat.Mirror
use dfchat.Chat.Stored
use dfchat.Tests.PlainText.{json_text, plain_cipher}
use dfchat.Tests.Stores.{message, new_client, dates}

abbrev letter : ArchivedMessage
letter = to_archived (message "a" "p_1_2" 3)

abbrev Plain : Type 0
Plain = Archive plain_cipher ℕ

abbrev unopened : Plain
unopened = record { opened = false; data_key = none; rows = []; key_file = missing }

abbrev opened_empty : Plain
opened_empty = record { opened = true; data_key = some 5; rows = []; key_file = plain 5 }

opened_empty-IsOpen : IsOpen {c = plain_cipher} json_text 5 opened_empty
opened_empty-IsOpen = record { ready = refl; readable = tt }

abbrev writes : List (Write plain_cipher)
writes =
    append 1 letter ∷ recall 2 "a" ∷ append 3 (to_archived (message "b" "c_9" 4)) ∷ drop_id "b" ∷ []

exec_all-view_example :
    (b : Plain) × (exec_all {c = plain_cipher} json_text 5 writes opened_empty ≡ some b)
    × IsOpen {c = plain_cipher} json_text 5 b
    × ((j : String)
        → view {c = plain_cipher} json_text 5 b.rows j
          ≡ foldl
              (λ v w. spec {c = plain_cipher} w v)
              (view {c = plain_cipher} json_text 5 [])
              writes
              j)
exec_all-view_example =
    Refinement.exec_all-view {c = plain_cipher} json_text 5 writes opened_empty opened_empty-IsOpen

abbrev keychain : SafeStorage ℕ ℕ
keychain = record { available = true; encrypt = λ k. k; decrypt = λ b. some b }

abbrev no_keychain : SafeStorage ℕ ℕ
no_keychain = record { available = false; encrypt = λ k. k; decrypt = λ b. none }

open-close_open_example :
    let b = open_archive {c = plain_cipher} keychain 5 unopened in
    let d = open_archive {c = plain_cipher} keychain 6 (close {c = plain_cipher} b) in
    (d.data_key ≡ b.data_key)
    × (is_some d.data_key ≡ true)
    × (d.rows ≡ unopened.rows)
    × (d.key_file ≡ b.key_file)
open-close_open_example =
    Lifecycle.open-close_open {c = plain_cipher} keychain 5 6 unopened (λ k. refl) refl

abbrev sealed_before : Plain
sealed_before = record unopened { key_file = sealed 5 }

open_without_keychain_example :
    let b = open_archive {c = plain_cipher} no_keychain 6 sealed_before in
    let d = open_archive {c = plain_cipher} keychain 7 (close {c = plain_cipher} b) in
    (b.key_file ≡ plain 6) × (b.data_key ≢ some 5) × (d.data_key ≢ some 5)
open_without_keychain_example =
    Lifecycle.open_without_keychain {c = plain_cipher} no_keychain keychain 5 5 6 7 sealed_before
      refl refl refl (λ e. omega arith)

abbrev full : Plain
full = record opened_empty { rows = encode plain_cipher json_text 5 1 letter ∷ [] }

full-IsOpen : IsOpen {c = plain_cipher} json_text 5 full
full-IsOpen = record {
  ready = refl;
  readable = ((normal letter, RoundTrip.decode-encode plain_cipher json_text 5 1 letter), tt);
}

query_by_conv-AreFirst_example :
    let found = Pages.rows_of {c = plain_cipher} "p_1_2" none full.rows in
    (ms : List ArchivedMessage) × (page rest : List (Row plain_cipher)) × (query_by_conv
        {c = plain_cipher} json_text "p_1_2" 20 none full
      ≡ some ms)
    × (traverse (decode plain_cipher json_text 5) page ≡ some ms)
    × Perm (page ++ rest) found
    × Pages.IsNewestFirst {c = plain_cipher} (page ++ rest)
    × (length page ≡ min (max 1 (min 500 20)) (length found))
query_by_conv-AreFirst_example =
    Pages.query_by_conv-AreFirst {c = plain_cipher} json_text 5 "p_1_2" 20 none full (omega arith)
      full-IsOpen

abbrev sending_client : Chat.Client
sending_client = record new_client { archive_calls = Chat.remove "b" ∷ [] }

exec_all-append_message_example :
    (b : Plain) × (exec_all {c = plain_cipher} json_text 5
        (map
          (Mirror.to_write {c = plain_cipher} 1)
          (reverse (append_message (message "a" "p_1_2" 3) sending_client).archive_calls))
        opened_empty
      ≡ some b)
    × IsOpen {c = plain_cipher} json_text 5 b
    × ((j : String)
        → view {c = plain_cipher} json_text 5 b.rows j ≡ (
            if "a" == j
            then some (
                written (Stored.received (message "a" "p_1_2" 3)) (
                  Mirror.played sending_client.archive_calls
                    (view {c = plain_cipher} json_text 5 [])
                    j))
            else Mirror.played sending_client.archive_calls
                (view {c = plain_cipher} json_text 5 [])
                j))
exec_all-append_message_example =
    Stored.exec_all-append_message {cipher = plain_cipher} json_text 5 1 (message "a" "p_1_2" 3)
      sending_client opened_empty refl opened_empty-IsOpen

abbrev recalled_message : ChatMessage
recalled_message = record (message "a" "p_1_2" 3) { is_recalled = true }

played-replace_message_example :
    Mirror.played
      (replace_message dates 9000000001 recalled_message new_client).archive_calls
      (λ j. some letter)
      "a"
    ≡ some (written (normal (to_archived recalled_message)) (some letter))
unfolding Chat.is_past_authority_window Mirror.played
played-replace_message_example =
    Mirror.played-replace_message dates 9000000001 recalled_message new_client (λ j. some letter)
      "a"

abbrev shown_client : Chat.Client
shown_client = Chat.set_conv "p_1_2" (message "a" "p_1_2" 3 ∷ []) new_client

played-remove_message_example :
    Mirror.played
      (remove_message dates 9000000001 "p_1_2" "a" shown_client).archive_calls
      (λ j. some letter)
      "a"
    ≡ none
unfolding Chat.is_past_authority_window Chat.set_conv get put
played-remove_message_example =
    Mirror.played-remove_message dates 9000000001 "p_1_2" "a" shown_client (λ j. some letter) "a"

abbrev other_device : Plain
other_device = record { opened = true; data_key = some 8; rows = []; key_file = plain 8 }

other_device-IsOpen : IsOpen {c = plain_cipher} json_text 8 other_device
other_device-IsOpen = record { ready = refl; readable = tt }

import_messages-export_all_example :
    (ms : List ArchivedMessage) × (d : Plain) × (export_all {c = plain_cipher} json_text full
      ≡ some ms)
    × (length ms ≡ 1)
    × (import_messages {c = plain_cipher} json_text (λ n. n) ms other_device ≡ some (d, length ms))
    × IsOpen {c = plain_cipher} json_text 8 d
    × ((j : String)
        → view {c = plain_cipher} json_text 8 d.rows j
          ≡ Transfer.written_if
              (view {c = plain_cipher} json_text 5 full.rows j)
              (view {c = plain_cipher} json_text 8 [] j))
import_messages-export_all_example =
    Transfer.import_messages-export_all {c = plain_cipher} json_text 5 8 (λ n. n) full other_device
      full-IsOpen (refl, tt) other_device-IsOpen
