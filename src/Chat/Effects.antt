-- ===== src/Chat/Effects.antt =====
-- The setters of client/src/store/chatStore.ts that write one conversation are built of a few effects:
-- what these keep, the setters keep.
use dfchat.Common.{
  ℕ, String, ◌≡◌, refl, sym, ◌∙◌, not, Option, none, some, List, [], ◌∷◌, ◌++◌, map, ◌or_else◌,
  keep, set, find, length, nat_eq, Bool-cases, Option-cases, inl, inr,
}
use dfchat.Types.{ChatMessage, ReactionCount}
use dfchat.Chat.{
  Client, ParseDate, is_past_authority_window, cache_messages, archive_append, archive_remove,
  set_conv,
}
use dfchat.Chat.Messages.{
  is_id, has_id, conv_of, archive_each, unseen, sort_by_seq, merge_messages, bump, append_message,
  write_at_id, replace_message, mirror_removal, remove_message, apply_reaction_update,
}
use dfchat.Chat.Lists.{
  IsUnique, IsUnique-snoc, merged-IsUnique, keep-IsUnique, set-IsUnique, write_at_id_cases,
}

-- In every conversation in memory no message stands twice.
abbrev pub AllUnique : Client → Type 0
AllUnique c = (conv_id : String) (ms : List ChatMessage) → conv_of conv_id c ≡ some ms → IsUnique ms

pub existing-IsUnique : (c : Client) (k : String) → AllUnique c → IsUnique (conv_of k c or_else [])
existing-IsUnique c k h = elim (Option-cases (conv_of k c)) [
  | inl e ↦ rw e tt
  | inr (ms, e) ↦ rw e (h k ms e)
]

-- A property of clients that the effects keep: a call of the archive, a bump of the sequence store,
-- and the write of a list without repetitions to the cache and to memory.
pub record IsKept (P : Client → Type 0) : Type 0 where
  pub unique : (c : Client) → P c → AllUnique c
  pub appends : (m : ChatMessage) (c : Client) → P c → P (archive_append m c)
  pub removes : (id : String) (c : Client) → P c → P (archive_remove id c)
  pub bumps : (m : ChatMessage) (c : Client) → P c → P (bump m c)
  pub stores :
      (k : String) (ms : List ChatMessage) (c : Client)
      → IsUnique ms
      → P c
      → P (set_conv k ms (cache_messages k ms c))

module _ {P : Client → Type 0} (kept : IsKept P) where
  archive_each_kept : (ms : List ChatMessage) (c : Client) → P c → P (archive_each ms c)
  unfolding archive_each
  archive_each_kept [] c h = h
  archive_each_kept (m ∷ ms) c h = archive_each_kept ms (archive_append m c) (kept.appends m c h)

  pub merge_messages_kept :
      (k : String) (ms : List ChatMessage) (c : Client) → P c → P (merge_messages k ms c)
  unfolding merge_messages
  merge_messages_kept k ms c h =
      let existing = conv_of k c or_else [] in
      let pushed = unseen (map (λ m. m.id) existing) ms in
      kept.stores k (sort_by_seq (existing ++ pushed)) (archive_each pushed c)
        (merged-IsUnique existing ms (existing-IsUnique c k (kept.unique c h)))
        (archive_each_kept pushed c h)

  pub append_message_kept : (m : ChatMessage) (c : Client) → P c → P (append_message m c)
  unfolding append_message
  append_message_kept m c0 h0 =
      let c = archive_append m (bump m c0) in
      let h = kept.appends m (bump m c0) (kept.bumps m c0 h0) in
      let existing = conv_of m.conversation_id c or_else [] in
      elim (Bool-cases (has_id m.id existing)) [
        | inl old ↦ rw old h
        | inr new ↦ rw new (
            kept.stores m.conversation_id (existing ++ m ∷ []) c
              (IsUnique-snoc existing m (existing-IsUnique c m.conversation_id (kept.unique c h))
                new)
              h)
      ]

  write_at_id_kept :
      (k id : String) (f : ChatMessage → ChatMessage) (xs : List ChatMessage) (c : Client)
      → ((old : ChatMessage) → old.id ≡ id → (f old).id ≡ id)
      → IsUnique xs
      → P c
      → P (write_at_id k id f xs c)
  write_at_id_kept k id f xs c keeps u h = elim (write_at_id_cases k id f xs c) [
    | inl e ↦ rw e h
    | inr (i, old, at, same, e) ↦ rw e (
        kept.stores k (set xs i (f old)) c
          (set-IsUnique xs i old (f old) at (keeps old same ∙ sym same) u) h)
  ]

  pub replace_message_kept :
      (d : ParseDate) (now : ℕ) (m : ChatMessage) (c : Client) → P c → P (replace_message d now m c)
  unfolding replace_message
  replace_message_kept d now m c0 h0 =
      let c = archive_append m c0 in
      let h = kept.appends m c0 h0 in
      elim (Bool-cases (is_past_authority_window d now m.created_at)) [
        | inl past ↦ rw past h0
        | inr recent ↦ rw recent (elim (Option-cases (conv_of m.conversation_id c)) [
          | inl e ↦ rw e h
          | inr (xs, e) ↦ rw e (
              write_at_id_kept m.conversation_id m.id (λ old. m) xs c (λ old same. refl)
                (kept.unique c h m.conversation_id xs e) h)
        ])
      ]

  pub apply_reaction_update_kept :
      (k id : String) (reactions : List ReactionCount) (c : Client)
      → P c
      → P (apply_reaction_update k id reactions c)
  unfolding apply_reaction_update
  apply_reaction_update_kept k id reactions c h = elim (Option-cases (conv_of k c)) [
    | inl e ↦ rw (e, apply_reaction_update) h
    | inr (xs, e) ↦
        rw (e, apply_reaction_update)
          (write_at_id_kept k id (λ old. record old { reactions = some reactions }) xs c
            (λ old same. same) (kept.unique c h k xs e) h)
  ]

  mirror_removal_kept :
      (d : ParseDate) (now : ℕ) (id : String) (o : Option ChatMessage) (c : Client)
      → P c
      → P (mirror_removal d now id o c)
  mirror_removal_kept d now id none c h = h
  mirror_removal_kept d now id (some m) c h =
      elim (Bool-cases (is_past_authority_window d now m.created_at)) [
        | inl past ↦ rw past h
        | inr recent ↦ rw recent (kept.removes id c h)
      ]

  pub remove_message_kept :
      (d : ParseDate) (now : ℕ) (k id : String) (c : Client) → P c → P (remove_message d now k id c)
  unfolding remove_message
  remove_message_kept d now k id c0 h0 =
      let current = find (is_id id) (conv_of k c0 or_else []) in
      let c = mirror_removal d now id current c0 in
      let h = mirror_removal_kept d now id current c0 h0 in
      elim (Option-cases (conv_of k c)) [
        | inl e ↦ rw (e, remove_message) h
        | inr (xs, e) ↦
            let next = keep (λ m. not (is_id id m)) xs in
            rw (e, remove_message)
              (elim (Bool-cases (nat_eq (length next) (length xs))) [
                | inl all_kept ↦ rw all_kept h
                | inr fewer ↦ rw fewer (
                    kept.stores k next c
                      (keep-IsUnique (λ m. not (is_id id m)) xs (kept.unique c h k xs e)) h)
              ])
      ]
