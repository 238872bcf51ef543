-- ===== src/Tests/Desktops.antt =====
-- The last window closes on macOS, the program is activated again, and a message comes in.
use dfchat.Common.{ℕ, ◌≡◌, true, some, none, [], ◌∷◌}
use dfchat.Archive.Api.{Archive}
use dfchat.Archive.Key.{plain}
use dfchat.Archive.Table.{encode}
use dfchat.Chat.{to_archived}
use dfchat.Desktop.{Desktop, darwin, on_all_closed, archive_query_by_conv, archive_max_seq}
use dfchat.Desktop.Reopened
use dfchat.Desktop.Reopened.{run, activates, appends}
use dfchat.Tests.PlainText.{json_text, plain_cipher}
use dfchat.Tests.Stores.{message}

abbrev one_row : Archive plain_cipher ℕ
one_row = record {
  opened = true;
  data_key = some 5;
  rows = encode plain_cipher json_text 5 1 (to_archived (message "a" "p_1_2" 3)) ∷ [];
  key_file = plain 5;
}

abbrev with_one_row : Desktop plain_cipher ℕ
with_one_row = record {
  archive = one_row;
  main_window = none;
  child_windows = 0;
  is_running = true;
  crashes = [];
}

run-on_all_closed_example :
    let e =
      run {c = plain_cipher} darwin
        (activates ∷ appends json_text 2 (to_archived (message "b" "p_1_2" 4)) ∷ [])
        (on_all_closed {c = plain_cipher} darwin with_one_row) in
    ((on_all_closed {c = plain_cipher} darwin with_one_row).is_running ≡ true)
    × (e.archive.rows ≡ one_row.rows)
    × ((archive_query_by_conv {c = plain_cipher} json_text "p_1_2" 50 none e).1 ≡ [])
    × ((archive_max_seq {c = plain_cipher} "p_1_2" e).1 ≡ 0)
run-on_all_closed_example =
    Reopened.run-on_all_closed {c = plain_cipher}
      (activates ∷ appends json_text 2 (to_archived (message "b" "p_1_2" 4)) ∷ []) with_one_row
      json_text "p_1_2" 50 none
