-- ===== src/Chat/Messages.antt =====
-- The setters of client/src/store/chatStore.ts that write `messagesByConv`.
use dfchat.Common.{
  ℕ, String, Bool, not, Option, none, some, List, [], ◌∷◌, ◌++◌, reverse, leb, if◌then◌else◌,
  ◌or_else◌, ◌==◌, find, find_index, any, keep, set, get_elem?, length, nat_eq, map,
}
use dfchat.Common.Dict.{Dict, get, spread}
use dfchat.Types.{ChatMessage, ReactionCount}
use dfchat.Seq.{bump_last}
use dfchat.Chat.{
  Client, CachedText, messages, other, malformed, ParseDate, is_past_authority_window,
  cache_messages, archive_append, archive_remove, set_conv,
}

-- `m.id === id`
abbrev pub is_id : String → ChatMessage → Bool
is_id id m = m.id == id

abbrev pub has_id : String → List ChatMessage → Bool
has_id id ms = any (is_id id) ms

-- `s.messagesByConv[convId]`
abbrev pub conv_of : String → Client → Option (List ChatMessage)
conv_of conv_id c = get conv_id c.chat.messages_by_conv

unfoldable pub archive_each : List ChatMessage → Client → Client
archive_each [] c = c
archive_each (m ∷ ms) c = archive_each ms (archive_append m c)

unfoldable pub set_messages : String → List ChatMessage → Client → Client
set_messages conv_id msgs c =
    let ordered = reverse msgs in
    set_conv conv_id ordered (archive_each ordered (cache_messages conv_id ordered c))

-- What the loop of `mergeMessages` pushes: the messages whose id is neither in `seen` nor pushed.
unfoldable pub unseen : List String → List ChatMessage → List ChatMessage
unseen seen [] = []
unseen seen (m ∷ ms) =
    let rest = unseen (m.id ∷ seen) ms in
    if any (λ id. id == m.id) seen then unseen seen ms else m ∷ rest

-- `merged.sort((a, b) => a.seq - b.seq)`, a stable sort
unfoldable pub insert_by_seq : ChatMessage → List ChatMessage → List ChatMessage
insert_by_seq m [] = m ∷ []
insert_by_seq m (x ∷ xs) = if leb m.seq x.seq then m ∷ x ∷ xs else x ∷ insert_by_seq m xs

unfoldable pub sort_by_seq : List ChatMessage → List ChatMessage
unfolding insert_by_seq
sort_by_seq [] = []
sort_by_seq (m ∷ ms) = insert_by_seq m (sort_by_seq ms)

unfoldable pub merge_messages : String → List ChatMessage → Client → Client
merge_messages conv_id msgs c =
    let existing = conv_of conv_id c or_else [] in
    let pushed = unseen (map (λ m. m.id) existing) msgs in
    let merged = sort_by_seq (existing ++ pushed) in
    set_conv conv_id merged (cache_messages conv_id merged (archive_each pushed c))

-- `useSeqStore.getState().bumpLast(…)`
abbrev pub bump : ChatMessage → Client → Client
bump msg c = record c { seqs = bump_last msg.conversation_id msg.seq c.seqs }

unfoldable pub append_message : ChatMessage → Client → Client
append_message msg c0 =
    let c = archive_append msg (bump msg c0) in
    let existing = conv_of msg.conversation_id c or_else [] in
    let next = existing ++ msg ∷ [] in
    if has_id msg.id existing
    then c
    else set_conv msg.conversation_id next (cache_messages msg.conversation_id next c)

-- The updater of `replaceMessage` and `applyReactionUpdate`: the entry at the index of the id.
unfoldable pub write_at_id :
    String → String → (ChatMessage → ChatMessage) → List ChatMessage → Client → Client
write_at_id conv_id id f existing c = elim (find_index (is_id id) existing) [
  | none ↦ c
  | some idx ↦ elim (get_elem? existing idx) [
    | none ↦ c
    | some old ↦
        set_conv conv_id (set existing idx (f old))
          (cache_messages conv_id (set existing idx (f old)) c)
  ]
]

unfoldable pub replace_message : ParseDate → ℕ → ChatMessage → Client → Client
replace_message parse_date now msg c0 =
    let c = archive_append msg c0 in
    if is_past_authority_window parse_date now msg.created_at
    then c0
    else elim (conv_of msg.conversation_id c) [
      | none ↦ c
      | some existing ↦ write_at_id msg.conversation_id msg.id (λ old. msg) existing c
    ]

-- The archive's part of `removeMessage`.
abbrev pub mirror_removal : ParseDate → ℕ → String → Option ChatMessage → Client → Client
mirror_removal parse_date now message_id none c = c
mirror_removal parse_date now message_id (some current) c =
    if is_past_authority_window parse_date now current.created_at
    then c
    else archive_remove message_id c

unfoldable pub remove_message : ParseDate → ℕ → String → String → Client → Client
remove_message parse_date now conv_id message_id c0 =
    let current = find (is_id message_id) (conv_of conv_id c0 or_else []) in
    let c = mirror_removal parse_date now message_id current c0 in
    elim (conv_of conv_id c) [
      | none ↦ c
      | some existing ↦
          let next = keep (λ m. not (is_id message_id m)) existing in
          if nat_eq (length next) (length existing)
          then c
          else set_conv conv_id next (cache_messages conv_id next c)
    ]

unfoldable pub apply_reaction_update : String → String → List ReactionCount → Client → Client
apply_reaction_update conv_id message_id reactions c = elim (conv_of conv_id c) [
  | none ↦ c
  | some arr ↦
      write_at_id conv_id message_id (λ old. record old { reactions = some reactions }) arr c
]

-- The loop of `loadAllCached`, in the order of localStorage: a text that does not parse ends it.
unfoldable pub load_all_cached : Dict CachedText → Dict (List ChatMessage)
load_all_cached [] = []
load_all_cached ((k, messages ms) ∷ rest) = (k, ms) ∷ load_all_cached rest
load_all_cached ((k, other) ∷ rest) = load_all_cached rest
load_all_cached ((k, malformed) ∷ rest) = []

-- The end of `hydrateFromCache`: what is in memory wins over the cache.
unfoldable pub restore : Dict (List ChatMessage) → Client → Client
restore [] c = c
restore cached c = record c {
  chat = record c.chat { messages_by_conv = spread cached c.chat.messages_by_conv };
}

unfoldable pub hydrate_from_cache : Client → Client
unfolding restore
hydrate_from_cache c = restore (load_all_cached c.cache) c
