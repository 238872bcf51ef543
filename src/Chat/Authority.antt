-- ===== src/Chat/Authority.antt =====
-- The 30-day horizon of client/src/store/chatStore.ts: what edits, recalls and removals do to memory
-- and to the archive, on each side of it.
use dfchat.Common.{
  ℕ, zero, suc, ◌≤◌, String, ◌≡◌, refl, Bool, not, ◌&&◌, Option, none, some, List, [], ◌∷◌, arith,
  if◌then◌else◌, ◌or_else◌, ◌==◌, eq_iff, find, find_index, get_elem?, set, keep, length, nat_eq,
  is_some, Bool-cases, Option-cases, inl, inr,
}
use dfchat.Types.{ChatMessage}
use dfchat.Chat.{
  Client, ParseDate, is_past_authority_window, cache_messages, archive_append, set_conv,
}
use dfchat.Chat.Messages.{
  is_id, conv_of, write_at_id, replace_message, mirror_removal, remove_message,
}
use dfchat.Chat.Frames.{
  conv_of-set_conv, chat-cache_messages, chat-archive_append, chat-archive_remove,
}

-- The message that memory shows in a conversation under an id.
abbrev pub shown : String → String → Client → Option ChatMessage
shown k id c = find (is_id id) (conv_of k c or_else [])

-- `next[idx] = f(next[idx])` at the index that `findIndex` gave.
find-write :
    (id j : String) (f : ChatMessage → ChatMessage) (xs : List ChatMessage) (i : ℕ)
    (old : ChatMessage)
    → find_index (is_id id) xs ≡ some i
    → get_elem? xs i ≡ some old
    → (f old).id ≡ id
    → find (is_id j) (set xs i (f old)) ≡ (if id == j then some (f old) else find (is_id j) xs)
find-write id j f [] i old e at same = cc
find-write id j f (x ∷ xs) zero old e at same =
    ground (arith, eq_iff x.id id, eq_iff id j, eq_iff x.id j, eq_iff (f old).id j, same)
find-write id j f (x ∷ xs) (suc i) old e at same =
    ground (arith, eq_iff x.id id, eq_iff id j, eq_iff x.id j, find-write id j f xs i old)

find-none_of_find_index :
    (id : String) (xs : List ChatMessage)
    → find_index (is_id id) xs ≡ none
    → find (is_id id) xs ≡ none
find-none_of_find_index id [] e = refl
find-none_of_find_index id (x ∷ xs) e = ground (arith, find-none_of_find_index id xs)

find_of_find_index :
    (id : String) (xs : List ChatMessage) (i : ℕ)
    → find_index (is_id id) xs ≡ some i
    → (old : ChatMessage) × (get_elem? xs i ≡ some old) × (find (is_id id) xs ≡ some old)
find_of_find_index id [] i e = cc
find_of_find_index id (x ∷ xs) zero e = (x, refl, ground arith)
find_of_find_index id (x ∷ xs) (suc i) e =
    let (old, at, found) = find_of_find_index id xs i (ground arith) in
    (old, at, ground (arith, found))

shown-set_conv :
    (k j id : String) (ms : List ChatMessage) (c : Client)
    → shown j id (set_conv k ms c) ≡ (if k == j then find (is_id id) ms else shown j id c)
shown-set_conv k j id ms c = ground (arith, conv_of-set_conv c k j ms)

same_chat-shown : (j id : String) (c d : Client) → d.chat ≡ c.chat → shown j id d ≡ shown j id c
same_chat-shown j id c d e = ground (arith, e)

-- The shown message after an update at an id, in whatever conversation and under whatever id.
shown-write_at_id :
    (k id j i : String) (m : ChatMessage) (xs : List ChatMessage) (c : Client)
    → m.id ≡ id
    → conv_of k c ≡ some xs
    → shown j i (write_at_id k id (λ old. m) xs c)
      ≡ (if (k == j) && ((id == i) && is_some (shown k id c)) then some m else shown j i c)
unfolding write_at_id
shown-write_at_id k id j i m xs c same e = elim (Option-cases (find_index (is_id id) xs)) [
  | inl out ↦ rw (out, write_at_id) (ground (arith, find-none_of_find_index id xs out, e))
  | inr (at, hit) ↦
      let (old, held, found) = find_of_find_index id xs at hit in
      let stored = cache_messages k (set xs at m) c in
      rw (hit, held, write_at_id)
        (ground (
          arith,
          e,
          found,
          eq_iff k j,
          shown-set_conv k j i (set xs at m) stored,
          same_chat-shown j i c stored (chat-cache_messages c k (set xs at m)),
          find-write id i (λ o. m) xs at old hit held same,
        ))
]

-- An edit or a recall changes one shown message, the one with the id of the event in the conversation
-- of the event, which then is the message of the event, and only if one is shown there and the
-- creation time that the event itself carries is within the horizon. The creation time of the shown
-- message is not asked for.
pub shown-replace_message :
    (d : ParseDate) (now : ℕ) (m : ChatMessage) (c : Client) (j i : String)
    → let k = m.conversation_id in
      shown j i (replace_message d now m c) ≡ (
        if not (is_past_authority_window d now m.created_at)
          && ((k == j) && ((m.id == i) && is_some (shown k m.id c)))
        then some m
        else shown j i c)
unfolding replace_message
shown-replace_message d now m c0 j i =
    let k = m.conversation_id in
    let c = archive_append m c0 in
    let chat = chat-archive_append c0 m in
    elim (Bool-cases (is_past_authority_window d now m.created_at)) [
      | inl past ↦ rw past refl
      | inr recent ↦ rw recent (elim (Option-cases (conv_of k c)) [
        | inl e ↦
            rw e
              (ground (arith, same_chat-shown j i c0 c chat, same_chat-shown k m.id c0 c chat, e))
        | inr (xs, e) ↦ rw e (
            ground (
              arith,
              shown-write_at_id k m.id j i m xs c refl e,
              same_chat-shown j i c0 c chat,
              same_chat-shown k m.id c0 c chat,
            ))
      ])
    ]

find-keep :
    (id i : String) (xs : List ChatMessage)
    → find (is_id i) (keep (λ m. not (is_id id m)) xs)
      ≡ (if id == i then none else find (is_id i) xs)
find-keep id i [] = ground arith
find-keep id i (x ∷ xs) =
    ground (arith, eq_iff x.id id, eq_iff id i, eq_iff x.id i, find-keep id i xs)

length-keep-le : (p : ChatMessage → Bool) (xs : List ChatMessage) → length (keep p xs) ≤ length xs
length-keep-le p [] = omega arith
length-keep-le p (x ∷ xs) = ground (arith, length-keep-le p xs)

-- Where the filter drops nothing, nothing is there to drop.
keep_all :
    (p : ChatMessage → Bool) (xs : List ChatMessage)
    → length (keep p xs) ≡ length xs
    → keep p xs ≡ xs
keep_all p [] e = refl
keep_all p (x ∷ xs) e = ground (arith, keep_all p xs, length-keep-le p xs)

chat-mirror_removal :
    (d : ParseDate) (now : ℕ) (id : String) (o : Option ChatMessage) (c : Client)
    → (mirror_removal d now id o c).chat ≡ c.chat
chat-mirror_removal d now id none c = refl
chat-mirror_removal d now id (some m) c = ground (arith, chat-archive_remove c id)

-- A removal takes the id out of the conversation, and changes nothing else that is shown.
pub shown-remove_message :
    (d : ParseDate) (now : ℕ) (k id : String) (c : Client) (j i : String)
    → shown j i (remove_message d now k id c)
      ≡ (if (k == j) && (id == i) then none else shown j i c)
unfolding remove_message
shown-remove_message d now k id c0 j i =
    let current = shown k id c0 in
    let c = mirror_removal d now id current c0 in
    let chat = chat-mirror_removal d now id current c0 in
    let same = same_chat-shown j i c0 c chat in
    elim (Option-cases (conv_of k c)) [
      | inl e ↦ rw (e, remove_message) (ground (arith, same, eq_iff k j, e))
      | inr (xs, e) ↦
          let next = keep (λ m. not (is_id id m)) xs in
          let stored = cache_messages k next c in
          rw (e, remove_message)
            (elim (Bool-cases (nat_eq (length next) (length xs))) [
              | inl all_kept ↦ rw all_kept (
                  ground (
                    arith,
                    same,
                    e,
                    eq_iff k j,
                    find-keep id i xs,
                    keep_all (λ m. not (is_id id m)) xs (ground (arith, all_kept)),
                  ))
              | inr fewer ↦ rw fewer (
                  ground (
                    arith,
                    same,
                    e,
                    eq_iff k j,
                    find-keep id i xs,
                    shown-set_conv k j i next stored,
                    same_chat-shown j i c stored (chat-cache_messages c k next),
                  ))
            ])
    ]
