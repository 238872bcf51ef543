-- ===== src/Tests/Stores.antt =====
-- Runs of the sequence store, of the chat store, of a sync round and of the notifications.
use mathlib.Core.List.{Perm}
use dfchat.Common.{
  ℕ, ◌≤◌, String, ◌≡◌, refl, true, false, none, some, List, [], ◌∷◌, if◌then◌else◌, ◌or_else◌,
  slice_last, inl, inr, ◌==◌, ◌||◌, ◌++◌,
}
use dfchat.Common.Dict.{get, put}
use dfchat.Types.{ChatMessage, object, end}
use dfchat.Seq.{absent, start, load, bump_last, unread_of}
use dfchat.Seq.Laws
use dfchat.Seq.Laws.{highest_bump, highest_read}
use dfchat.Chat.{
  archive_append, archive_remove, cache_messages, set_conv, to_archived, ChatState, Client,
  ParseDate, is_past_authority_window, msg_cache_limit,
}
use dfchat.Chat.Messages.{
  unseen, append_message, set_messages, write_at_id, sort_by_seq, archive_each, conv_of,
  merge_messages, replace_message, remove_message, hydrate_from_cache, has_id,
}
use dfchat.Chat.Runs
use dfchat.Chat.Merge
use dfchat.Chat.Merge.{IsSorted}
use dfchat.Chat.Lists.{IsUnique}
use dfchat.Chat.Messages.{is_id}
use dfchat.Common.{find}
use dfchat.Chat.Authority
use dfchat.Sync.{ConvSummary, ListAfter, needs_pull, begin_sync, receive_all}
use dfchat.Sync.CatchUp
use dfchat.Sync.CatchUp.{last_seq, In, asks_for}
use dfchat.Notify.{NotifyMeta, Surroundings}
use dfchat.Notify.Debounce

abbrev pub message : String → String → ℕ → ChatMessage
message id conv_id seq = record {
  id = id;
  conversation_id = conv_id;
  sender_id = "7";
  type = "text";
  content = object end;
  seq = seq;
  mentions = none;
  reply_to = none;
  reactions = none;
  is_recalled = false;
  edited_at = none;
  edit_count = none;
  created_at = "recent";
}

abbrev pub no_chat : ChatState
no_chat = record {
  friends = [];
  groups = [];
  channels_by_group = [];
  active_target = none;
  messages_by_conv = [];
  pins_by_conv = [];
  peer_last_read_seq = [];
  muted_convs = [];
  group_notify_modes = [];
  mention_by_conv = [];
  pending_jump = none;
}

abbrev pub new_client : Client
new_client = record {
  chat = no_chat;
  seqs = start false absent absent;
  cache = [];
  quota = false;
  has_archive = true;
  archive_calls = [];
}

abbrev pub dates : ParseDate
dates text = if text == "recent" then some 9000000000 else (if text == "old" then some 1 else none)

abbrev seq_calls : List Laws.Call
seq_calls = Laws.bump "p_1_2" 4 ∷ Laws.bump "p_1_2" 9 ∷ Laws.read "p_1_2" 5 ∷ []

unread_of-run_example : unread_of "p_1_2" (Laws.run seq_calls (start false absent absent)) ≡ 4
unfolding start load get
unread_of-run_example = Laws.unread_of-run seq_calls (start false absent absent) "p_1_2"

start-run_example :
    let s = Laws.run seq_calls (start false absent absent) in
    let again = start false s.stored_last s.stored_read in
    (again.last ≡ s.last) × (again.read ≡ s.read)
start-run_example = Laws.start-run seq_calls absent absent

pub new_client-IsSound : Runs.IsSound new_client
unfolding get start
new_client-IsSound = record {
  unique = λ k ms e. cc;
  mirrored = record { room = refl; tidy = tt; copied = λ k ms e. cc };
}

abbrev setter_calls : List Runs.Call
setter_calls =
    Runs.append (message "a" "p_1_2" 1)
    ∷ Runs.set "p_1_2" (message "b" "p_1_2" 2 ∷ message "a" "p_1_2" 1 ∷ [])
    ∷ Runs.merge "c_5" (message "d" "c_5" 8 ∷ message "c" "c_5" 7 ∷ [])
    ∷ Runs.replace 9000000001 (message "b" "p_1_2" 2)
    ∷ Runs.remove 9000000001 "p_1_2" "a"
    ∷ []

setter_calls-IsServed : Runs.IsServed setter_calls
setter_calls-IsServed = ((refl, (refl, tt)), tt)

run-IsSound_example : Runs.IsSound (Runs.run dates setter_calls new_client)
run-IsSound_example =
    Runs.run-IsSound dates setter_calls new_client setter_calls-IsServed new_client-IsSound

hydrate_restarted-run_example :
    conv_of "c_5"
      (hydrate_from_cache (Runs.restarted no_chat (Runs.run dates setter_calls new_client)))
    ≡ some (slice_last msg_cache_limit (message "c" "c_5" 7 ∷ message "d" "c_5" 8 ∷ []))
unfolding Runs.run Runs.step append_message set_messages merge_messages replace_message
    remove_message write_at_id archive_append archive_remove cache_messages set_conv to_archived
    bump_last get put is_past_authority_window sort_by_seq archive_each unseen
hydrate_restarted-run_example =
    Runs.hydrate_restarted-run dates setter_calls new_client no_chat "c_5"
      (message "c" "c_5" 7 ∷ message "d" "c_5" 8 ∷ []) setter_calls-IsServed new_client-IsSound refl
      refl

abbrev new_messages : List ChatMessage
new_messages = message "d" "c_5" 8 ∷ message "c" "c_5" 7 ∷ []

conv_of-merge_messages_example :
    (merged new : List ChatMessage) × (conv_of "c_5" (merge_messages "c_5" new_messages new_client)
      ≡ some merged)
    × IsSorted merged
    × Perm merged ((conv_of "c_5" new_client or_else []) ++ new)
    × IsUnique new
    × ((id : String)
        → find (is_id id) new ≡ (
            if has_id id (conv_of "c_5" new_client or_else [])
            then none
            else find (is_id id) new_messages))
    × ((id : String)
        → has_id id merged
          ≡ (has_id id (conv_of "c_5" new_client or_else []) || has_id id new_messages))
    × ((j : String)
        → ("c_5" == j) ≡ false
        → conv_of j (merge_messages "c_5" new_messages new_client) ≡ conv_of j new_client)
conv_of-merge_messages_example = Merge.conv_of-merge_messages "c_5" new_messages new_client

abbrev one_shown : Client
one_shown = record new_client {
  chat = record no_chat { messages_by_conv = ("p_1_2", message "a" "p_1_2" 1 ∷ []) ∷ [] };
}

abbrev edited : ChatMessage
edited = record (message "a" "p_1_2" 1) { edit_count = some 1 }

shown-replace_message_example :
    Authority.shown "p_1_2" "a" (replace_message dates 9000000001 edited one_shown) ≡ some edited
unfolding is_past_authority_window get
shown-replace_message_example =
    Authority.shown-replace_message dates 9000000001 edited one_shown "p_1_2" "a"

shown-remove_message_example :
    Authority.shown "p_1_2" "a" (remove_message dates 9000000001 "p_1_2" "a" one_shown) ≡ none
shown-remove_message_example =
    Authority.shown-remove_message dates 9000000001 "p_1_2" "a" one_shown "p_1_2" "a"

abbrev summaries : List ConvSummary
summaries =
    record { id = "p_1_2"; type = 1; head_seq = 9; last_message_at = none; muted = none } ∷ []

abbrev answers : ListAfter
answers id since = some (message "y" "p_1_2" 8 ∷ message "z" "p_1_2" 9 ∷ [])

receive_all-begin_sync_example :
    let t =
      receive_all answers (begin_sync summaries new_client).1 (begin_sync summaries new_client).0 in
    (9 ≤ last_seq "p_1_2" t)
    × (needs_pull t.seqs.last
          (record { id = "p_1_2"; type = 1; head_seq = 9; last_message_at = none; muted = none })
        ≡ false)
receive_all-begin_sync_example =
    CatchUp.receive_all-begin_sync answers summaries new_client
      (record { id = "p_1_2"; type = 1; head_seq = 9; last_message_at = none; muted = none })
      (begin_sync summaries new_client).1 (inl refl) (λ p h. h)
      (λ behind. (message "y" "p_1_2" 8 ∷ message "z" "p_1_2" 9 ∷ [], refl, inr (inl (refl, refl))))

abbrev meta : NotifyMeta
meta = record {
  sender_name = "Ann";
  conversation_title = "Ann";
  active_conv_id = none;
  is_mention = false;
}

abbrev at_time : ℕ → Surroundings
at_time now = record {
  focused = true;
  sound_enabled = true;
  electron = true;
  granted = false;
  now = now;
}

abbrev notify_calls : List Debounce.Call
notify_calls =
    record { msg = message "a" "p_1_2" 1; meta = meta; env = at_time 10000 }
    ∷ record { msg = message "b" "p_1_2" 2; meta = meta; env = at_time 12000 }
    ∷ record { msg = message "c" "p_1_2" 3; meta = meta; env = at_time 15000 }
    ∷ []

toast_times-IsSpacedFrom_example :
    Debounce.IsSpacedFrom 0 (Debounce.toast_times "p_1_2" [] notify_calls)
unfolding get
toast_times-IsSpacedFrom_example = Debounce.toast_times-IsSpacedFrom "p_1_2" [] notify_calls
