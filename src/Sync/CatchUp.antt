-- ===== src/Sync/CatchUp.antt =====
-- What a round of client/src/sync/engine.ts catches up on, and what it misses.
use dfchat.Common.{
  ℕ, ◌≤◌, max, String, ◌≡◌, refl, ap, ◌∙◌, Bool, true, false, some, List, [], ◌∷◌, map, arith,
  if◌then◌else◌, ◌or_else◌, ◌==◌, eq_iff, eq_refl, any, keep, Bool-cases, Option-cases, inl, inr,
  ◌⊎◌,
}
use dfchat.Common.Dict.{get}
use dfchat.Types.{ChatMessage}
use dfchat.Seq.{SeqMap, bump_last}
use dfchat.Seq.Laws.{last_of-bump_last}
use dfchat.Chat.{Client, cache_messages, archive_append, set_conv}
use dfchat.Chat.Messages.{append_message}
use dfchat.Sync.{
  ConvSummary, ListAfter, Pull, pull_of, needs_pull, begin_sync, append_each, receive, receive_all,
}

abbrev pub last_seq : String → Client → ℕ
last_seq id c = get id c.seqs.last or_else 0

seqs-append_message :
    (m : ChatMessage) (c : Client)
    → (append_message m c).seqs ≡ bump_last m.conversation_id m.seq c.seqs
unfolding append_message archive_append cache_messages set_conv
seqs-append_message m c = ground arith

last_seq-append_message :
    (m : ChatMessage) (c : Client) (j : String)
    → last_seq j (append_message m c)
      ≡ (if m.conversation_id == j then max (last_seq j c) m.seq else last_seq j c)
last_seq-append_message m c j =
    ap (λ s. get j s.last or_else 0) (seqs-append_message m c)
    ∙ last_of-bump_last m.conversation_id j m.seq c.seqs

last_seq-append_each-le :
    (ms : List ChatMessage) (c : Client) (j : String) → last_seq j c ≤ last_seq j (append_each ms c)
unfolding append_each
last_seq-append_each-le [] c j = omega arith
last_seq-append_each-le (m ∷ ms) c j =
    ground (arith, last_seq-append_each-le ms (append_message m c) j, last_seq-append_message m c j)

-- One of the messages is of the conversation and has the number.
abbrev pub Reaches : String → ℕ → List ChatMessage → Type 0
Reaches id n [] = ⊥
Reaches id n (m ∷ ms) = ((m.conversation_id ≡ id) × (m.seq ≡ n)) ⊎ Reaches id n ms

Reaches-append_each :
    (ms : List ChatMessage) (c : Client) (id : String) (n : ℕ)
    → Reaches id n ms
    → n ≤ last_seq id (append_each ms c)
unfolding append_each
Reaches-append_each [] c id n r = absurd r
Reaches-append_each (m ∷ ms) c id n (inl (same, at)) = ground (
  arith,
  eq_iff m.conversation_id id,
  last_seq-append_each-le ms (append_message m c) id,
  last_seq-append_message m c id,
)
Reaches-append_each (m ∷ ms) c id n (inr r) = Reaches-append_each ms (append_message m c) id n r

receive-le :
    (f : ListAfter) (p : Pull) (c : Client) (j : String) → last_seq j c ≤ last_seq j (receive f p c)
unfolding receive
receive-le f (id, since) c j = elim (Option-cases (f id since)) [
  | inl e ↦ rw (e, receive) (omega arith)
  | inr (ms, e) ↦ rw (e, receive) (last_seq-append_each-le ms c j)
]

receive_all-le :
    (f : ListAfter) (ps : List Pull) (c : Client) (j : String)
    → last_seq j c ≤ last_seq j (receive_all f ps c)
unfolding receive_all
receive_all-le f [] c j = omega arith
receive_all-le f (p ∷ ps) c j =
    omega (arith, receive-le f p c j, receive_all-le f ps (receive f p c) j)

abbrev pub In : {A : Type 0} → A → List A → Type 0
In a [] = ⊥
In a (x ∷ xs) = (x ≡ a) ⊎ In a xs

-- An answer that reaches a number lifts the sequence number of its conversation to it, wherever it
-- stands among the answers.
receive_all-Reaches :
    (f : ListAfter) (ps : List Pull) (c : Client) (id : String) (since n : ℕ)
    (ms : List ChatMessage)
    → In (id, since) ps
    → f id since ≡ some ms
    → Reaches id n ms
    → n ≤ last_seq id (receive_all f ps c)
unfolding receive_all receive
receive_all-Reaches f [] c id since n ms here e r = absurd here
receive_all-Reaches f (p ∷ ps) c id since n ms (inl same) e r =
    let reached = Reaches-append_each ms c id n r in
    let rest = receive_all-le f ps (receive f p c) id in
    let first : receive f p c ≡ append_each ms c = rw (same, e, receive) refl in
    omega (arith, reached, rest, ap (last_seq id) first)
receive_all-Reaches f (p ∷ ps) c id since n ms (inr later) e r =
    receive_all-Reaches f ps (receive f p c) id since n ms later e r

In-keep-map :
    (last : SeqMap) (v : ConvSummary) (convs : List ConvSummary)
    → In v convs
    → needs_pull last v ≡ true
    → In (pull_of last v) (map (pull_of last) (keep (needs_pull last) convs))
In-keep-map last v [] here needs = absurd here
In-keep-map last v (w ∷ convs) (inl same) needs =
    let e : needs_pull last w ≡ true = rw same needs in rw e (inl (ap (pull_of last) same))
In-keep-map last v (w ∷ convs) (inr later) needs = elim (Bool-cases (needs_pull last w)) [
  | inl e ↦ rw e (inr (In-keep-map last v convs later needs))
  | inr e ↦ rw e (In-keep-map last v convs later needs)
]

-- A round catches up: in whatever order the answers come in, if the answer for a listed conversation
-- that is behind reaches the head that the server has named, then afterwards the conversation's
-- sequence number is at least that head, and a second round would not ask for it.
pub receive_all-begin_sync :
    (f : ListAfter) (convs : List ConvSummary) (c : Client) (v : ConvSummary) (arrivals : List Pull)
    → In v convs
    → ((p : Pull) → In p (begin_sync convs c).1 → In p arrivals)
    → (needs_pull c.seqs.last v ≡ true
        → (ms : List ChatMessage) × (f v.id (pull_of c.seqs.last v).1 ≡ some ms)
          × Reaches v.id v.head_seq ms)
    → let t = receive_all f arrivals (begin_sync convs c).0 in
      (v.head_seq ≤ last_seq v.id t) × (needs_pull t.seqs.last v ≡ false)
unfolding begin_sync
receive_all-begin_sync f convs c v arrivals listed all served =
    let begun = (begin_sync convs c).0 in
    let t = receive_all f arrivals begun in
    let reached : v.head_seq ≤ last_seq v.id t = elim (Bool-cases (needs_pull c.seqs.last v)) [
      | inl behind ↦
          let (ms, e, r) = served behind in
          receive_all-Reaches f arrivals begun v.id (pull_of c.seqs.last v).1 v.head_seq ms
            (all (pull_of c.seqs.last v) (In-keep-map c.seqs.last v convs listed behind)) e r
      | inr level ↦ ground (arith, level, receive_all-le f arrivals begun v.id)
    ] in
    (reached, ground (arith, reached))

-- The heads that the server names for a conversation, when none is above a number.
abbrev pub HeadsUpTo : String → ℕ → List ConvSummary → Type 0
HeadsUpTo id n [] = Unit {0}
HeadsUpTo id n (v ∷ convs) = (v.id ≡ id → v.head_seq ≤ n) × HeadsUpTo id n convs

abbrev pub asks_for : String → List Pull → Bool
asks_for id ps = any (λ p. p.0 == id) ps

none_asked :
    (convs : List ConvSummary) (last : SeqMap) (id : String) (n : ℕ)
    → n ≤ (get id last or_else 0)
    → HeadsUpTo id n convs
    → asks_for id (map (pull_of last) (keep (needs_pull last) convs)) ≡ false
unfolding pull_of
none_asked [] last id n h heads = refl
none_asked (v ∷ convs) last id n h (first, heads) =
    ground (arith, eq_iff v.id id, none_asked convs last id n h heads)

-- What it misses: where a live message with the head's number comes in before the round reads the
-- sequence numbers, the round asks for nothing of that conversation, however many messages lie
-- between the last one received before and the live one.
pub begin_sync-append_message :
    (convs : List ConvSummary) (live : ChatMessage) (c : Client)
    → HeadsUpTo live.conversation_id live.seq convs
    → asks_for live.conversation_id (begin_sync convs (append_message live c)).1 ≡ false
unfolding begin_sync
begin_sync-append_message convs live c heads =
    none_asked convs (append_message live c).seqs.last live.conversation_id live.seq
      (ground
        (arith, last_seq-append_message live c live.conversation_id, eq_refl live.conversation_id))
      heads
