-- ===== src/Chat/Frames.antt =====
-- What the effects of the setters of client/src/store/chatStore.ts leave alone.
use dfchat.Common.{
  map, ◌++◌, ◌or_else◌, ◌⊎◌, inl, inr, Option-cases, String, ◌≡◌, refl, ◌∙◌, some, List, [], ◌∷◌,
  arith, if◌then◌else◌, ◌==◌, is_some,
}
use dfchat.Common.Dict.{get, get-put, get-spread, Dict}
use dfchat.Types.{ChatMessage}
use dfchat.Chat.{Client, cache_messages, archive_append, archive_remove, set_conv}
use dfchat.Chat.Messages.{
  unseen, sort_by_seq, merge_messages, conv_of, archive_each, restore, load_all_cached,
  hydrate_from_cache,
}

module _ (c : Client) where
  pub chat-cache_messages :
      (k : String) (ms : List ChatMessage) → (cache_messages k ms c).chat ≡ c.chat
  unfolding cache_messages
  chat-cache_messages k ms = ground arith

  pub chat-archive_append : (m : ChatMessage) → (archive_append m c).chat ≡ c.chat
  unfolding archive_append
  chat-archive_append m = ground arith

  pub chat-archive_remove : (id : String) → (archive_remove id c).chat ≡ c.chat
  unfolding archive_remove
  chat-archive_remove id = ground arith

  pub cache-archive_append :
      (m : ChatMessage)
      → ((archive_append m c).cache ≡ c.cache) × ((archive_append m c).quota ≡ c.quota)
  unfolding archive_append
  cache-archive_append m = ground arith

  pub cache-archive_remove :
      (id : String)
      → ((archive_remove id c).cache ≡ c.cache) × ((archive_remove id c).quota ≡ c.quota)
  unfolding archive_remove
  cache-archive_remove id = ground arith

  pub conv_of-set_conv :
      (k j : String) (ms : List ChatMessage)
      → conv_of j (set_conv k ms c) ≡ (if k == j then some ms else conv_of j c)
  unfolding set_conv
  conv_of-set_conv k j ms = get-put k j ms c.chat.messages_by_conv

pub chat-archive_each : (ms : List ChatMessage) (c : Client) → (archive_each ms c).chat ≡ c.chat
unfolding archive_each
chat-archive_each [] c = refl
chat-archive_each (m ∷ ms) c = chat-archive_each ms (archive_append m c) ∙ chat-archive_append c m

pub cache-archive_each :
    (ms : List ChatMessage) (c : Client)
    → ((archive_each ms c).cache ≡ c.cache) × ((archive_each ms c).quota ≡ c.quota)
unfolding archive_each
cache-archive_each [] c = (refl, refl)
cache-archive_each (m ∷ ms) c =
    let (e, q) = cache-archive_each ms (archive_append m c) in
    let (e', q') = cache-archive_append c m in (e ∙ e', q ∙ q')

has_archive-cache_messages :
    (k : String) (ms : List ChatMessage) (c : Client)
    → (cache_messages k ms c).has_archive ≡ c.has_archive
unfolding cache_messages
has_archive-cache_messages k ms c = ground arith

has_archive-archive_append :
    (m : ChatMessage) (c : Client) → (archive_append m c).has_archive ≡ c.has_archive
unfolding archive_append
has_archive-archive_append m c = ground arith

has_archive-archive_each :
    (ms : List ChatMessage) (c : Client) → (archive_each ms c).has_archive ≡ c.has_archive
unfolding archive_each
has_archive-archive_each [] c = refl
has_archive-archive_each (m ∷ ms) c =
    has_archive-archive_each ms (archive_append m c) ∙ has_archive-archive_append m c

conv_of-restore :
    (j : String) (cached : Dict (List ChatMessage)) (c : Client)
    → conv_of j (restore cached c) ≡ (if is_some (conv_of j c) then conv_of j c else get j cached)
unfolding restore get
conv_of-restore j [] c = ground arith
conv_of-restore j (e ∷ cached) c = get-spread j (e ∷ cached) c.chat.messages_by_conv

-- After a start from the cache a conversation holds what memory held for it, or else what the cache
-- gives.
pub conv_of-hydrate_from_cache :
    (j : String) (c : Client)
    → conv_of j (hydrate_from_cache c)
      ≡ (if is_some (conv_of j c) then conv_of j c else get j (load_all_cached c.cache))
unfolding hydrate_from_cache
conv_of-hydrate_from_cache j c = conv_of-restore j (load_all_cached c.cache) c

cache-restore :
    (stored : Dict (List ChatMessage)) (c : Client)
    → ((restore stored c).cache ≡ c.cache) × ((restore stored c).quota ≡ c.quota)
unfolding restore
cache-restore [] c = (refl, refl)
cache-restore (e ∷ stored) c = (refl, refl)

pub cache-hydrate_from_cache :
    (c : Client)
    → ((hydrate_from_cache c).cache ≡ c.cache) × ((hydrate_from_cache c).quota ≡ c.quota)
unfolding hydrate_from_cache
cache-hydrate_from_cache c = cache-restore (load_all_cached c.cache) c

pub hydrate_from_cache_cases :
    (k : String) (ms : List ChatMessage) (c : Client)
    → conv_of k (hydrate_from_cache c) ≡ some ms
    → (conv_of k c ≡ some ms) ⊎ (get k (load_all_cached c.cache) ≡ some ms)
hydrate_from_cache_cases k ms c e = elim (Option-cases (conv_of k c)) [
  | inl x ↦ inr (ground (arith, conv_of-hydrate_from_cache k c))
  | inr (xs, x) ↦ inl (ground (arith, conv_of-hydrate_from_cache k c))
]

-- A merge leaves the archive of the client where it was.
pub has_archive-merge_messages :
    (k : String) (ms : List ChatMessage) (c : Client)
    → (merge_messages k ms c).has_archive ≡ c.has_archive
unfolding merge_messages set_conv
has_archive-merge_messages k ms c =
    let existing = conv_of k c or_else [] in
    let new = unseen (map (λ m. m.id) existing) ms in
    has_archive-cache_messages k (sort_by_seq (existing ++ new)) (archive_each new c)
    ∙ has_archive-archive_each new c
