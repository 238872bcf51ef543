-- ===== src/Chat/Runs.antt =====
-- Any sequence of the message setters of client/src/store/chatStore.ts, and a restart after it.
use dfchat.Common.{
  ℕ, String, ◌≡◌, refl, ap, sym, ◌∙◌, some, List, [], ◌∷◌, reverse, arith, slice_last,
  slice_last_short, Bool-cases, inl, inr, ◌==◌,
}
use dfchat.Common.Dict.{get}
use dfchat.Types.{ChatMessage, ReactionCount}
use dfchat.Chat.{
  Client, ChatState, messages, msg_cache_limit, ParseDate, cache_messages, set_conv, archive_append,
  archive_remove,
}
use dfchat.Chat.Messages.{
  conv_of, archive_each, set_messages, merge_messages, bump, append_message, replace_message,
  remove_message, apply_reaction_update, hydrate_from_cache,
}
use dfchat.Chat.Frames.{
  conv_of-set_conv, conv_of-hydrate_from_cache, chat-archive_append, chat-archive_remove,
  chat-archive_each, chat-cache_messages, cache-hydrate_from_cache, hydrate_from_cache_cases,
}
use dfchat.Chat.Lists.{IsUnique, IsUnique-reverse}
use dfchat.Chat.Effects.{
  AllUnique, IsKept, merge_messages_kept, append_message_kept, replace_message_kept,
  apply_reaction_update_kept, remove_message_kept,
}
use dfchat.Chat.Cache.{
  IsMirrored, get-load_all_cached, restored-IsTidyText, append_frame, remove_frame,
  frame-IsMirrored, stored-IsMirrored, set_messages-IsMirrored,
}

-- A call of a setter, with the time at which it is made where the setter asks for it.
pub data Call : Type 0 where
  set merge : String → List ChatMessage → Call
  append : ChatMessage → Call
  replace : ℕ → ChatMessage → Call
  remove : ℕ → (conv_id message_id : String) → Call
  react : (conv_id message_id : String) → List ReactionCount → Call
  hydrate : Call

unfoldable pub step : ParseDate → Call → Client → Client
step d (set k ms) c = set_messages k ms c
step d (merge k ms) c = merge_messages k ms c
step d (append m) c = append_message m c
step d (replace now m) c = replace_message d now m c
step d (remove now k id) c = remove_message d now k id c
step d (react k id reactions) c = apply_reaction_update k id reactions c
step d hydrate c = hydrate_from_cache c

unfoldable pub run : ParseDate → List Call → Client → Client
run d [] c = c
run d (k ∷ ks) c = run d ks (step d k c)

-- The lists handed to `setMessages`, the answers of the server, name no message twice.
abbrev pub IsServed : List Call → Type 0
IsServed [] = Unit {0}
IsServed (set k ms ∷ ks) = IsUnique ms × IsServed ks
IsServed (_ ∷ ks) = IsServed ks

pub record IsSound (c : Client) : Type 0 where
  pub unique : AllUnique c
  pub mirrored : IsMirrored c

pub set_conv-AllUnique :
    (k : String) (ms : List ChatMessage) (c d : Client)
    → d.chat ≡ c.chat
    → IsUnique ms
    → AllUnique c
    → AllUnique (set_conv k ms d)
set_conv-AllUnique k ms c d chat u h j xs e = elim (Bool-cases (k == j)) [
  | inl hit ↦ let same : ms ≡ xs = ground (arith, conv_of-set_conv d k j ms) in rw (← same) u
  | inr miss ↦ h j xs (ground (arith, conv_of-set_conv d k j ms, chat))
]

pub same_chat-AllUnique : (c d : Client) → d.chat ≡ c.chat → AllUnique c → AllUnique d
same_chat-AllUnique c d chat h k ms e = h k ms (ground (arith, chat))

IsSound-kept : IsKept IsSound
IsSound-kept = record {
  unique = λ c h. h.unique;
  appends = λ m c h. record {
    unique = same_chat-AllUnique c (archive_append m c) (chat-archive_append c m) h.unique;
    mirrored = append_frame m c h.mirrored;
  };
  removes = λ id c h. record {
    unique = same_chat-AllUnique c (archive_remove id c) (chat-archive_remove c id) h.unique;
    mirrored = remove_frame id c h.mirrored;
  };
  bumps = λ m c h. record {
    unique = h.unique;
    mirrored = frame-IsMirrored c (bump m c) refl refl refl h.mirrored;
  };
  stores = λ k ms c u h. record {
    unique =
        set_conv-AllUnique k ms c (cache_messages k ms c) (chat-cache_messages c k ms) u h.unique;
    mirrored = stored-IsMirrored k ms c u h.mirrored;
  };
}

set_messages-IsSound :
    (k : String) (ms : List ChatMessage) (c : Client)
    → IsUnique ms
    → IsSound c
    → IsSound (set_messages k ms c)
unfolding set_messages
set_messages-IsSound k ms c u h =
    let ordered = reverse ms in
    let first = cache_messages k ordered c in
    record {
      unique =
          set_conv-AllUnique k ordered c (archive_each ordered first)
            (chat-archive_each ordered first ∙ chat-cache_messages c k ordered)
            (IsUnique-reverse ms u) h.unique;
      mirrored = set_messages-IsMirrored k ms c (IsUnique-reverse ms u) h.mirrored;
    }

hydrate-IsSound : (c : Client) → IsSound c → IsSound (hydrate_from_cache c)
hydrate-IsSound c h =
    let (cache, quota) = cache-hydrate_from_cache c in
    let m = h.mirrored in
    record {
      unique = λ k ms e. elim (hydrate_from_cache_cases k ms c e) [
        | inl live ↦ h.unique k ms live
        | inr stored ↦ (restored-IsTidyText k c.cache ms m.tidy stored).0.1
      ];
      mirrored = record {
        room = quota ∙ m.room;
        tidy = rw cache m.tidy;
        copied = λ k ms e. rw cache (elim (hydrate_from_cache_cases k ms c e) [
          | inl live ↦ m.copied k ms live
          | inr stored ↦
              let (text, held) = restored-IsTidyText k c.cache ms m.tidy stored in
              held ∙ ap (λ l. some (messages l)) (sym (slice_last_short msg_cache_limit ms text.0))
        ]);
      };
    }

step-IsSound :
    (d : ParseDate) (k : Call) (c : Client) → IsServed (k ∷ []) → IsSound c → IsSound (step d k c)
unfolding step
step-IsSound d (set k ms) c served h = set_messages-IsSound k ms c served.0 h
step-IsSound d (merge k ms) c served h = merge_messages_kept IsSound-kept k ms c h
step-IsSound d (append m) c served h = append_message_kept IsSound-kept m c h
step-IsSound d (replace now m) c served h = replace_message_kept IsSound-kept d now m c h
step-IsSound d (remove now k id) c served h = remove_message_kept IsSound-kept d now k id c h
step-IsSound d (react k id reactions) c served h =
    apply_reaction_update_kept IsSound-kept k id reactions c h
step-IsSound d hydrate c served h = hydrate-IsSound c h

IsServed-cons : (k : Call) (ks : List Call) → IsServed (k ∷ ks) → IsServed (k ∷ []) × IsServed ks
IsServed-cons (set k ms) ks s = ((s.0, tt), s.1)
IsServed-cons (merge k ms) ks s = (tt, s)
IsServed-cons (append m) ks s = (tt, s)
IsServed-cons (replace now m) ks s = (tt, s)
IsServed-cons (remove now k id) ks s = (tt, s)
IsServed-cons (react k id reactions) ks s = (tt, s)
IsServed-cons hydrate ks s = (tt, s)

-- Whatever setters are called in whatever order, on answers of the server that repeat no message and
-- while localStorage takes the writes: no conversation in memory shows a message twice, and the cache
-- holds for each its last fifty messages, with nothing in it that a start could not restore.
pub run-IsSound :
    (d : ParseDate) (ks : List Call) (c : Client) → IsServed ks → IsSound c → IsSound (run d ks c)
unfolding run
run-IsSound d [] c served h = h
run-IsSound d (k ∷ ks) c served h =
    let (first, rest) = IsServed-cons k ks served in
    run-IsSound d ks (step d k c) rest (step-IsSound d k c first h)

-- A new start of the program: the store is created anew, localStorage stays.
abbrev pub restarted : ChatState → Client → Client
restarted initial c = record c { chat = initial }

-- After any run that starts in such a state, a restart that hydrates an empty store restores for each
-- conversation that memory held its last fifty messages.
pub hydrate_restarted-run :
    (d : ParseDate) (ks : List Call) (c : Client) (initial : ChatState) (k : String)
    (ms : List ChatMessage)
    → IsServed ks
    → IsSound c
    → initial.messages_by_conv ≡ []
    → conv_of k (run d ks c) ≡ some ms
    → conv_of k (hydrate_from_cache (restarted initial (run d ks c)))
      ≡ some (slice_last msg_cache_limit ms)
unfolding get
hydrate_restarted-run d ks c initial k ms served h empty e =
    let m = (run-IsSound d ks c served h).mirrored in
    let again = restarted initial (run d ks c) in
    let stored = get-load_all_cached k (run d ks c).cache _ m.tidy (m.copied k ms e) in
    conv_of-hydrate_from_cache k again ∙ rw empty stored
