-- ===== src/Sync.antt =====
-- client/src/sync/engine.ts: one round of `syncAllConversations`, and the two requests of
-- client/src/api/client.ts that it makes, whose answers are arguments: `none` is a request that
-- throws. Rounds that run at once share one, so a round is a function.
pub mod CatchUp
pub mod Shared
use dfchat.Common.{
  ℕ, ◌-◌, String, Bool, true, Option, none, some, List, [], ◌∷◌, map, ltb, if◌then◌else◌, ◌or_else◌,
  keep,
}
use dfchat.Common.Dict.{get}
use dfchat.Types.{ChatMessage}
use dfchat.Seq.{SeqMap}
use dfchat.Chat.{Client}
use dfchat.Chat.Messages.{append_message}
use dfchat.Chat.Marks.{set_muted_all}

pub record ConvSummary : Type 0 where
  pub id : String
  pub type : ℕ
  pub head_seq : ℕ
  pub last_message_at : Option String
  pub muted : Option Bool

-- `listMessagesAfter` with its default limit: the messages of a conversation after a number.
abbrev pub ListAfter : Type 0
ListAfter = String → ℕ → Option (List ChatMessage)

-- What a round asks for: a conversation and the number after which its messages are wanted.
abbrev pub Pull : Type 0
Pull = String × ℕ

unfoldable pub pull_of : SeqMap → ConvSummary → Pull
pull_of last c =
    let local_last = get c.id last or_else 0 in
    (c.id, if ltb 0 local_last then local_last else c.head_seq - 200)

abbrev pub needs_pull : SeqMap → ConvSummary → Bool
needs_pull last c = ltb (get c.id last or_else 0) c.head_seq

-- Up to the first wait for messages: the muted set is mirrored, and what is asked for is read off the
-- sequence numbers as they stand.
unfoldable pub begin_sync : List ConvSummary → Client → Client × List Pull
unfolding pull_of
begin_sync convs c = (
  record c {
    chat = set_muted_all (map (λ v. v.id) (keep (λ v. v.muted or_else Bool.false) convs)) c.chat;
  },
  map (pull_of c.seqs.last) (keep (needs_pull c.seqs.last) convs),
)

-- `msgs.forEach((m) => chat.appendMessage(m))`
unfoldable pub append_each : List ChatMessage → Client → Client
append_each [] c = c
append_each (m ∷ ms) c = append_each ms (append_message m c)

-- One answer comes in; a request that throws ends the round for its conversation alone, since the
-- others are under way.
unfoldable pub receive : ListAfter → Pull → Client → Client
receive list_after (id, since) c = elim (list_after id since) [
  | none ↦ c
  | some msgs ↦ append_each msgs c
]

-- The answers in the order in which they come in.
unfoldable pub receive_all : ListAfter → List Pull → Client → Client
receive_all list_after [] c = c
receive_all list_after (p ∷ ps) c = receive_all list_after ps (receive list_after p c)

unfoldable pub sync_round : Option (List ConvSummary) → ListAfter → Client → Client
sync_round none list_after c = c
sync_round (some convs) list_after c =
    let begun = begin_sync convs c in receive_all list_after begun.1 begun.0
