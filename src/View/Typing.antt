-- ===== src/View/Typing.antt =====
-- client/src/components/ChatView.tsx: who is typing in the open conversation, and when the view tells
-- the other side that the user is. Times are those of `Date.now()`.
use dfchat.Common.{ℕ, ◌+◌, String, Option, none, some, [], ◌∷◌, ltb, if◌then◌else◌, ◌==◌}
use dfchat.Common.Dict.{Dict, put, remove}
use dfchat.View.Opening.{Context, with_friend, in_channel}

pub data Signal : Type 0 where
  typing_start typing_stop : Signal

-- the event of the server, with its payload
pub record TypingEvent : Type 0 where
  pub signal : Signal
  pub conversation_id : String
  pub sender_id : String

-- `typingPeers`: when what was heard of a sender runs out
abbrev pub Peers : Type 0
Peers = Dict ℕ

-- the listener of the effect for the conversation
unfoldable pub on_typing : String → ℕ → TypingEvent → Peers → Peers
on_typing conv_id now e peers =
    let next : Peers = elim e.signal [
      | typing_stop ↦ remove e.sender_id peers
      | typing_start ↦ put e.sender_id (now + 5000) peers
    ] in
    if e.conversation_id == conv_id then next else peers

-- The sweep every 1500 ms. It gives the old object where nothing ran out, which has the same entries.
unfoldable pub sweep : ℕ → Peers → Peers
sweep now [] = []
sweep now ((k, v) ∷ peers) = let rest = sweep now peers in if ltb now v then (k, v) ∷ rest else rest

-- What goes to the server, for the conversation and the friend.
pub record TypingPing : Type 0 where
  pub signal : Signal
  pub conversation_id : String
  pub recipient : String

abbrev pub ping_of : Signal → Context → Option TypingPing
ping_of s ctx = elim ctx.place [
  | with_friend id ↦ some (record { signal = s; conversation_id = ctx.conv_id; recipient = id })
  | in_channel gid cid ↦ none
]

-- `sendTypingPing` and the loss of the focus, on `lastTypingSentRef`
unfoldable pub send_typing_ping : Option Context → ℕ → ℕ → ℕ × Option TypingPing
send_typing_ping none now last_sent = (last_sent, none)
send_typing_ping (some ctx) now last_sent = elim (ping_of typing_start ctx) [
  | none ↦ (last_sent, none)
  | some p ↦ if ltb now (last_sent + 3000) then (last_sent, none) else (now, some p)
]

unfoldable pub on_blur : Option Context → ℕ → ℕ × Option TypingPing
on_blur none last_sent = (last_sent, none)
on_blur (some ctx) last_sent = elim (ping_of typing_stop ctx) [
  | none ↦ (last_sent, none)
  | some p ↦ (0, some p)
]
