-- ===== src/Chat/Marks.antt =====
-- The other setters of client/src/store/chatStore.ts: pins, muting, mentions, read receipts, and the
-- plain fields.
use dfchat.Common.{
  ℕ, String, Bool, true, not, Option, none, some, List, [], ◌∷◌, ◌++◌, leb, if◌then◌else◌,
  ◌or_else◌, ◌==◌, any, keep, is_some,
}
use dfchat.Common.Dict.{get, put, remove}
use dfchat.Types.{Friend, Group, Channel, Pin}
use dfchat.Chat.{ChatState, ChatTarget, PendingJump}

unfoldable pub set_friends : List Friend → ChatState → ChatState
set_friends friends s = record s { friends = friends }

unfoldable pub set_groups : List Group → ChatState → ChatState
set_groups groups s = record s { groups = groups }

unfoldable pub set_channels : String → List Channel → ChatState → ChatState
set_channels group_id channels s = record s {
  channels_by_group = put group_id channels s.channels_by_group;
}

unfoldable pub set_active_target : Option ChatTarget → ChatState → ChatState
set_active_target t s = record s { active_target = t }

unfoldable pub set_pins : String → List Pin → ChatState → ChatState
set_pins conv_id pins s = record s { pins_by_conv = put conv_id pins s.pins_by_conv }

abbrev pub is_pin_of : String → Pin → Bool
is_pin_of message_id p = p.message_id == message_id

unfoldable pub add_pin : String → Pin → ChatState → ChatState
add_pin conv_id pin s =
    let existing = get conv_id s.pins_by_conv or_else [] in
    if any (is_pin_of pin.message_id) existing
    then s
    else record s { pins_by_conv = put conv_id (pin ∷ existing) s.pins_by_conv }

unfoldable pub remove_pin : String → String → ChatState → ChatState
remove_pin conv_id message_id s = elim (get conv_id s.pins_by_conv) [
  | none ↦ s
  | some existing ↦ record s {
    pins_by_conv = put conv_id (keep (λ p. not (is_pin_of message_id p)) existing) s.pins_by_conv;
  }
]

unfoldable pub set_pending_jump : Option PendingJump → ChatState → ChatState
set_pending_jump j s = record s { pending_jump = j }

-- `set.has(x)`
abbrev pub is_in : String → List String → Bool
is_in id ids = any (λ x. x == id) ids

unfoldable pub set_muted : String → Bool → ChatState → ChatState
set_muted conv_id muted s =
    let added =
      if is_in conv_id s.muted_convs then s.muted_convs else s.muted_convs ++ conv_id ∷ [] in
    let deleted = keep (λ x. not (x == conv_id)) s.muted_convs in
    record s { muted_convs = if muted then added else deleted }

-- `new Set(ids)`, whose elements are asked for by `is_in` alone
unfoldable pub set_muted_all : List String → ChatState → ChatState
set_muted_all ids s = record s { muted_convs = ids }

unfoldable pub set_group_notify_mode : String → ℕ → ChatState → ChatState
set_group_notify_mode group_id mode s = record s {
  group_notify_modes = put group_id mode s.group_notify_modes;
}

unfoldable pub bump_unread : String → Bool → ChatState → ChatState
bump_unread conv_id mention s =
    if mention then record s { mention_by_conv = put conv_id true s.mention_by_conv } else s

unfoldable pub clear_unread : String → ChatState → ChatState
clear_unread conv_id s =
    if is_some (get conv_id s.mention_by_conv)
    then record s { mention_by_conv = remove conv_id s.mention_by_conv }
    else s

unfoldable pub set_peer_read : String → String → ℕ → ChatState → ChatState
set_peer_read conv_id user_id seq s =
    let cur = get conv_id s.peer_last_read_seq or_else [] in
    if leb seq (get user_id cur or_else 0)
    then s
    else record s { peer_last_read_seq = put conv_id (put user_id seq cur) s.peer_last_read_seq }
