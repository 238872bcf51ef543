-- ===== src/Chat/Merge.antt =====
-- `mergeMessages` of client/src/store/chatStore.ts: what the merged list holds, and its order.
use mathlib.Core.List.{Perm}
use mathlib.Core.List.Perm
use dfchat.Common.{
  ℕ, ◌≤◌, String, ◌≡◌, refl, false, ◌||◌, some, List, [], ◌∷◌, ◌++◌, map, arith, leb, leb→le,
  ◌or_else◌, ◌==◌, eq_iff, eq_refl, Bool-cases, inl, inr, find, if◌then◌else◌, none,
}
use dfchat.Types.{ChatMessage}
use dfchat.Chat.{Client, cache_messages}
use dfchat.Chat.Messages.{
  is_id, has_id, conv_of, archive_each, unseen, insert_by_seq, sort_by_seq, merge_messages,
}
use dfchat.Chat.Frames.{conv_of-set_conv, chat-cache_messages, chat-archive_each}
use dfchat.Chat.Lists.{
  has_id-append, has_id-sort_by_seq, is_among, is_among-map, IsUnique, unseen-IsUnique,
}

abbrev pub Under : ℕ → List ChatMessage → Type 0
Under n [] = Unit {0}
Under n (m ∷ ms) = n ≤ m.seq

-- Each number is at most the next.
abbrev pub IsSorted : List ChatMessage → Type 0
IsSorted [] = Unit {0}
IsSorted (m ∷ ms) = Under m.seq ms × IsSorted ms

insert_by_seq-Under :
    (n : ℕ) (m : ChatMessage) (xs : List ChatMessage)
    → n ≤ m.seq
    → Under n xs
    → Under n (insert_by_seq m xs)
unfolding insert_by_seq
insert_by_seq-Under n m [] h u = h
insert_by_seq-Under n m (x ∷ xs) h u = ground arith

insert_by_seq-IsSorted :
    (m : ChatMessage) (xs : List ChatMessage) → IsSorted xs → IsSorted (insert_by_seq m xs)
unfolding insert_by_seq
insert_by_seq-IsSorted m [] s = (tt, tt)
insert_by_seq-IsSorted m (x ∷ xs) (u, s) = elim (Bool-cases (leb m.seq x.seq)) [
  | inl under ↦ rw under (leb→le m.seq x.seq under, (u, s))
  | inr over ↦
      rw over (insert_by_seq-Under x.seq m xs (ground arith) u, insert_by_seq-IsSorted m xs s)
]

sort_by_seq-IsSorted : (xs : List ChatMessage) → IsSorted (sort_by_seq xs)
unfolding sort_by_seq
sort_by_seq-IsSorted [] = tt
sort_by_seq-IsSorted (x ∷ xs) = insert_by_seq-IsSorted x (sort_by_seq xs) (sort_by_seq-IsSorted xs)

insert_by_seq-perm : (m : ChatMessage) (xs : List ChatMessage) → Perm (insert_by_seq m xs) (m ∷ xs)
unfolding insert_by_seq
insert_by_seq-perm m [] = Perm.rfl
insert_by_seq-perm m (x ∷ xs) = elim (Bool-cases (leb m.seq x.seq)) [
  | inl under ↦ rw under Perm.rfl
  | inr over ↦ rw over (Perm.trans (Perm.cons x (insert_by_seq-perm m xs)) (Perm.swap m x xs))
]

sort_by_seq-perm : (xs : List ChatMessage) → Perm (sort_by_seq xs) xs
unfolding sort_by_seq
sort_by_seq-perm [] = Perm.rfl
sort_by_seq-perm (x ∷ xs) =
    Perm.trans (insert_by_seq-perm x (sort_by_seq xs)) (Perm.cons x (sort_by_seq-perm xs))

-- An id is pushed if and only if it comes in and was not seen.
has_id-unseen_seen :
    (id : String) (seen : List String) (ms : List ChatMessage)
    → (is_among id seen || has_id id (unseen seen ms)) ≡ (is_among id seen || has_id id ms)
unfolding unseen
has_id-unseen_seen id seen [] = refl
has_id-unseen_seen id seen (m ∷ ms) =
    ground
      (arith, eq_iff m.id id, has_id-unseen_seen id seen ms, has_id-unseen_seen id (m.id ∷ seen) ms)

-- What is pushed under an id: the first that comes in with it, if the id was not seen.
pub find-unseen :
    (i : String) (seen : List String) (ms : List ChatMessage)
    → find (is_id i) (unseen seen ms) ≡ (if is_among i seen then none else find (is_id i) ms)
unfolding unseen
find-unseen i seen [] = ground arith
find-unseen i seen (m ∷ ms) =
    ground (arith, eq_iff m.id i, find-unseen i seen ms, find-unseen i (m.id ∷ seen) ms)

-- The conversation after a merge is sorted by sequence number and is a rearrangement of what it held
-- and of the pushed messages: of those that come in, for each id that it did not hold, the first with
-- that id, once. So nothing it held is lost or replaced. No other conversation changes.
pub conv_of-merge_messages :
    (k : String) (ms : List ChatMessage) (c : Client)
    → let existing = conv_of k c or_else [] in
      (merged new : List ChatMessage) × (conv_of k (merge_messages k ms c) ≡ some merged)
      × IsSorted merged
      × Perm merged (existing ++ new)
      × IsUnique new
      × ((id : String)
          → find (is_id id) new ≡ (if has_id id existing then none else find (is_id id) ms))
      × ((id : String) → has_id id merged ≡ (has_id id existing || has_id id ms))
      × ((j : String) → (k == j) ≡ false → conv_of j (merge_messages k ms c) ≡ conv_of j c)
unfolding merge_messages
conv_of-merge_messages k ms c =
    let existing = conv_of k c or_else [] in
    let new = unseen (map (λ m. m.id) existing) ms in
    let d = archive_each new c in
    let merged = sort_by_seq (existing ++ new) in
    let stored = cache_messages k merged d in
    (
      merged,
      new,
      ground (arith, conv_of-set_conv stored k k merged, eq_refl k),
      sort_by_seq-IsSorted (existing ++ new),
      sort_by_seq-perm (existing ++ new),
      unseen-IsUnique (map (λ m. m.id) existing) ms,
      λ id. ground (arith, find-unseen id (map (λ m. m.id) existing) ms, is_among-map id existing),
      λ id. ground (
        arith,
        has_id-sort_by_seq id (existing ++ new),
        has_id-append id existing new,
        has_id-unseen_seen id (map (λ m. m.id) existing) ms,
        is_among-map id existing,
      ),
      λ j other. ground (
        arith,
        conv_of-set_conv stored k j merged,
        chat-cache_messages d k merged,
        chat-archive_each new c,
      ),
    )
