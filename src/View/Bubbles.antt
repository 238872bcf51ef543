-- ===== src/View/Bubbles.antt =====
-- client/src/components/ChatView.tsx: what a bubble offers its sender, and which one says that it was
-- read. A time is what `getTime()` gives for a text, `none` for NaN.
use dfchat.Common.{
  ℕ, ◌+◌, ◌*◌, String, Bool, false, not, ◌&&◌, Option, none, some, List, [], ltb, leb,
  if◌then◌else◌, ◌or_else◌, ◌==◌, any, reverse, find,
}
use dfchat.Common.Dict.{Dict, get}
use dfchat.Types.{ChatMessage}
use dfchat.Chat.Messages.{is_id}

-- `Date.now() - time < window`
abbrev pub is_within : ℕ → ℕ → Option ℕ → Bool
is_within window now none = false
is_within window now (some time) = ltb now (time + window)

module _ (time : String → Option ℕ) (now : ℕ) where
  abbrev pub within_recall_window : String → Bool
  within_recall_window created_at = is_within (2 * 60 * 1000) now (time created_at)

  abbrev pub within_edit_window : String → Bool
  within_edit_window created_at = is_within (5 * 60 * 1000) now (time created_at)

  unfoldable pub can_recall : Bool → ChatMessage → Bool
  can_recall mine m = mine && (not m.is_recalled && within_recall_window m.created_at)

  unfoldable pub can_edit : Bool → ChatMessage → Bool
  can_edit mine m =
      mine && (not m.is_recalled && ((m.type == "text") && within_edit_window m.created_at))

-- `lastOwnMessageId`: the loop from the end
unfoldable pub last_own_message_id : Option String → List ChatMessage → Option String
last_own_message_id none messages = none
last_own_message_id (some me) messages =
    let own = find (λ m. (m.sender_id == me) && not m.is_recalled) (reverse messages) in
    if me == "" then none else elim own [ none ↦ none | some m ↦ some m.id ]

unfoldable pub is_last_mine_message :
    Option String → List ChatMessage → List ChatMessage → Option String
is_last_mine_message me group_msgs all_msgs = elim (last_own_message_id me all_msgs) [
  | none ↦ none
  | some id ↦ if not (id == "") && any (is_id id) group_msgs then some id else none
]

-- `peerLastReadSeq[convId]?.[targetId] ?? 0` in the conversation with a friend
abbrev pub peer_read_seq : String → String → Dict (Dict ℕ) → ℕ
peer_read_seq conv_id target_id seqs = get target_id (get conv_id seqs or_else []) or_else 0

-- Whether a bubble says that the friend has read it, `none` where it says nothing; `own` is `mine && isPrivate`
unfoldable pub read_mark : Option String → Bool → ℕ → ChatMessage → Option Bool
read_mark last_mine own peer_read m =
    let is_last = elim last_mine as (λ o. Bool) [ none ↦ false | some id ↦ is_id id m ] in
    if own && is_last then some (leb m.seq peer_read) else none
