-- ===== src/Chat/Cache.antt =====
-- The copy of `messagesByConv` that client/src/store/chatStore.ts keeps in localStorage.
use dfchat.Common.{
  ◌-◌, ◌≤◌, String, ◌≡◌, refl, ap, ◌∙◌, false, none, some, List, [], ◌∷◌, reverse, arith, ◌==◌,
  eq_iff, length, slice_last, length-slice_last-le, Bool-cases, inl, inr,
}
use dfchat.Common.Dict.{Dict, get, put, get-put}
use dfchat.Types.{ChatMessage}
use dfchat.Chat.{
  Client, CachedText, messages, other, malformed, msg_cache_limit, cache_messages, archive_append,
  archive_remove, set_conv,
}
use dfchat.Chat.Messages.{conv_of, archive_each, set_messages, load_all_cached}
use dfchat.Chat.Frames.{
  chat-cache_messages, chat-archive_append, chat-archive_remove, conv_of-set_conv,
  chat-archive_each, cache-archive_append, cache-archive_remove, cache-archive_each,
}
use dfchat.Chat.Lists.{IsUnique, drop-IsUnique}

-- A cached text that a setter wrote: at most fifty messages, none of them twice.
abbrev pub IsTidyText : CachedText → Type 0
IsTidyText (messages ms) = (length ms ≤ msg_cache_limit) × IsUnique ms
IsTidyText _ = ⊥

abbrev pub IsTidy : Dict CachedText → Type 0
IsTidy [] = Unit {0}
IsTidy ((k, t) ∷ rest) = IsTidyText t × (get k rest ≡ none) × IsTidy rest

pub put-IsTidy :
    (k : String) (t : CachedText) (m : Dict CachedText)
    → IsTidyText t
    → IsTidy m
    → IsTidy (put k t m)
unfolding put get
put-IsTidy k t [] h tidy = (h, refl, tt)
put-IsTidy k t ((j, s) ∷ m) h (hs, new, tidy) = elim (Bool-cases (j == k)) [
  | inl hit ↦ rw hit (h, new, tidy)
  | inr miss ↦
      rw miss (hs, ground (arith, get-put k j t m, eq_iff k j, eq_iff j k), put-IsTidy k t m h tidy)
]

-- A tidy cache is restored as it stands.
pub get-load_all_cached :
    (k : String) (m : Dict CachedText) (ms : List ChatMessage)
    → IsTidy m
    → get k m ≡ some (messages ms)
    → get k (load_all_cached m) ≡ some ms
unfolding get load_all_cached
get-load_all_cached k [] ms tidy e = cc
get-load_all_cached k ((j, messages xs) ∷ m) ms (h, new, tidy) e =
    ground (arith, get-load_all_cached k m ms tidy)
get-load_all_cached k ((j, other) ∷ m) ms (h, new, tidy) e = absurd h
get-load_all_cached k ((j, malformed) ∷ m) ms (h, new, tidy) e = absurd h

pub restored-IsTidyText :
    (k : String) (m : Dict CachedText) (ms : List ChatMessage)
    → IsTidy m
    → get k (load_all_cached m) ≡ some ms
    → IsTidyText (messages ms) × (get k m ≡ some (messages ms))
unfolding get load_all_cached
restored-IsTidyText k [] ms tidy e = cc
restored-IsTidyText k ((j, messages xs) ∷ m) ms (h, new, tidy) e = elim (Bool-cases (j == k)) [
  | inl hit ↦ let same : xs ≡ ms = ground (arith, hit) in rw (← same) (h, ground (arith, hit))
  | inr miss ↦
      let (t, e') = restored-IsTidyText k m ms tidy (ground (arith, miss)) in
      (t, ground (arith, miss, e'))
]
restored-IsTidyText k ((j, other) ∷ m) ms (h, new, tidy) e = absurd h
restored-IsTidyText k ((j, malformed) ∷ m) ms (h, new, tidy) e = absurd h

-- localStorage takes the writes, holds what the setters wrote, and has for every conversation in
-- memory its last fifty messages.
pub record IsMirrored (c : Client) : Type 0 where
  pub room : c.quota ≡ false
  pub tidy : IsTidy c.cache
  pub copied :
      (k : String) (ms : List ChatMessage)
      → conv_of k c ≡ some ms
      → get k c.cache ≡ some (messages (slice_last msg_cache_limit ms))

-- Calls of the archive and of the sequence store show in none of this.
pub frame-IsMirrored :
    (c d : Client)
    → d.chat ≡ c.chat
    → d.cache ≡ c.cache
    → d.quota ≡ c.quota
    → IsMirrored c
    → IsMirrored d
frame-IsMirrored c d chat cache quota m = record {
  room = quota ∙ m.room;
  tidy = rw cache m.tidy;
  copied = λ k ms e. rw cache (m.copied k ms (ground (arith, chat)));
}

cache-cache_messages :
    (k : String) (ms : List ChatMessage) (c : Client)
    → c.quota ≡ false
    → ((cache_messages k ms c).cache ≡ put k (messages (slice_last msg_cache_limit ms)) c.cache)
      × ((cache_messages k ms c).quota ≡ c.quota)
unfolding cache_messages
cache-cache_messages k ms c room = rw room (refl, refl)

-- Both writes of a setter, with calls of the archive in between or before.
written-IsMirrored :
    (k : String) (ms : List ChatMessage) (c d : Client)
    → IsUnique ms
    → d.chat ≡ c.chat
    → d.cache ≡ put k (messages (slice_last msg_cache_limit ms)) c.cache
    → d.quota ≡ c.quota
    → IsMirrored c
    → IsMirrored (set_conv k ms d)
unfolding set_conv
written-IsMirrored k ms c d u chat cache quota m = record {
  room = quota ∙ m.room;
  tidy = rw cache (
      put-IsTidy k (messages (slice_last msg_cache_limit ms)) c.cache
        (length-slice_last-le msg_cache_limit ms, drop-IsUnique (length ms - msg_cache_limit) ms u)
        m.tidy);
  copied = λ j xs e. rw cache (elim (Bool-cases (k == j)) [
    | inl hit ↦
        let same : ms ≡ xs = ground (arith, conv_of-set_conv d k j ms, hit) in
        rw (get-put k j (messages (slice_last msg_cache_limit ms)) c.cache, hit)
          (ap (λ l. some (messages (slice_last msg_cache_limit l))) same)
    | inr miss ↦
        rw (get-put k j (messages (slice_last msg_cache_limit ms)) c.cache, miss)
          (m.copied j xs (ground (arith, conv_of-set_conv d k j ms, miss, chat)))
  ]);
}

pub stored-IsMirrored :
    (k : String) (ms : List ChatMessage) (c : Client)
    → IsUnique ms
    → IsMirrored c
    → IsMirrored (set_conv k ms (cache_messages k ms c))
stored-IsMirrored k ms c u m =
    let (cache, quota) = cache-cache_messages k ms c m.room in
    written-IsMirrored k ms c (cache_messages k ms c) u (chat-cache_messages c k ms) cache quota m

pub append_frame : (m : ChatMessage) (c : Client) → IsMirrored c → IsMirrored (archive_append m c)
append_frame m c h =
    let (cache, quota) = cache-archive_append c m in
    frame-IsMirrored c (archive_append m c) (chat-archive_append c m) cache quota h

each_frame : (ms : List ChatMessage) (c : Client) → IsMirrored c → IsMirrored (archive_each ms c)
each_frame ms c h =
    let (cache, quota) = cache-archive_each ms c in
    frame-IsMirrored c (archive_each ms c) (chat-archive_each ms c) cache quota h

pub set_messages-IsMirrored :
    (k : String) (ms : List ChatMessage) (c : Client)
    → IsUnique (reverse ms)
    → IsMirrored c
    → IsMirrored (set_messages k ms c)
unfolding set_messages
set_messages-IsMirrored k ms c u m =
    let ordered = reverse ms in
    let first = cache_messages k ordered c in
    let (cache, quota) = cache-archive_each ordered first in
    let (cache', quota') = cache-cache_messages k ordered c m.room in
    written-IsMirrored k ordered c (archive_each ordered first) u
      (chat-archive_each ordered first ∙ chat-cache_messages c k ordered) (cache ∙ cache')
      (quota ∙ quota') m

pub remove_frame : (id : String) (c : Client) → IsMirrored c → IsMirrored (archive_remove id c)
remove_frame id c h =
    let (cache, quota) = cache-archive_remove c id in
    frame-IsMirrored c (archive_remove id c) (chat-archive_remove c id) cache quota h
