-- ===== src/View/Stale.antt =====
-- What a merge shows of the messages that come in, and so what an opened conversation shows.
use dfchat.Common.{
  String, ◌≡◌, refl, sym, ap, ◌∙◌, true, false, Option, none, some, List, [], ◌∷◌, ◌++◌, map, arith,
  if◌then◌else◌, ◌or_else◌, ◌==◌, eq_iff, eq_refl, find, is_some, Bool-cases, inl, inr,
}
use mathlib.Core.Path.{subst}
use dfchat.Common.Dict.{get}
use dfchat.Types.{ChatMessage}
use dfchat.Archive.{ArchivedMessage}
use dfchat.Chat.{Client, set_conv, cache_messages}
use dfchat.Chat.Messages.{
  is_id, has_id, conv_of, archive_each, unseen, insert_by_seq, sort_by_seq, set_messages,
  merge_messages,
}
use dfchat.Chat.Frames.{
  conv_of-set_conv, chat-cache_messages, chat-archive_each, has_archive-merge_messages,
}
use dfchat.Chat.Marks.{clear_unread}
use dfchat.Chat.Effects.{AllUnique, existing-IsUnique}
use dfchat.Chat.Runs.{set_conv-AllUnique}
use dfchat.Chat.Lists.{
  IsUnique, is_among-map, merged-IsUnique, has_id-sort_by_seq, appended-IsUnique,
}
use dfchat.Chat.Authority.{shown}
use dfchat.Chat.Merge.{find-unseen}
use dfchat.View.Opening.{from_archived, enter, on_archive_rows, on_server_messages}

find-append :
    (i : String) (xs ys : List ChatMessage)
    → find (is_id i) (xs ++ ys)
      ≡ (if is_some (find (is_id i) xs) then find (is_id i) xs else find (is_id i) ys)
find-append i [] ys = refl
find-append i (x ∷ xs) ys = ground (arith, find-append i xs ys)

find-insert_by_seq :
    (i : String) (m : ChatMessage) (xs : List ChatMessage)
    → has_id m.id xs ≡ false
    → find (is_id i) (insert_by_seq m xs) ≡ (if m.id == i then some m else find (is_id i) xs)
unfolding insert_by_seq
find-insert_by_seq i m [] h = refl
find-insert_by_seq i m (x ∷ xs) h =
    ground (arith, eq_iff m.id i, eq_iff x.id i, eq_iff x.id m.id, find-insert_by_seq i m xs)

find-sort_by_seq :
    (i : String) (xs : List ChatMessage)
    → IsUnique xs
    → find (is_id i) (sort_by_seq xs) ≡ find (is_id i) xs
unfolding sort_by_seq
find-sort_by_seq i [] u = refl
find-sort_by_seq i (x ∷ xs) (new, u) =
    find-insert_by_seq i x (sort_by_seq xs) (has_id-sort_by_seq x.id xs ∙ new)
    ∙ ap (λ o. if x.id == i then some x else o) (find-sort_by_seq i xs u)

is_some-find : (i : String) (xs : List ChatMessage) → is_some (find (is_id i) xs) ≡ has_id i xs
is_some-find i [] = refl
is_some-find i (x ∷ xs) = ground (arith, is_some-find i xs)

-- A message that a merge finds is shown as it was, and any other id as the first that came in with it.
pub shown-merge_messages :
    (k i : String) (ms : List ChatMessage) (c : Client)
    → IsUnique (conv_of k c or_else [])
    → shown k i (merge_messages k ms c)
      ≡ (if is_some (shown k i c) then shown k i c else find (is_id i) ms)
unfolding merge_messages
shown-merge_messages k i ms c u =
    let existing = conv_of k c or_else [] in
    let new = unseen (map (λ m. m.id) existing) ms in
    let merged = sort_by_seq (existing ++ new) in
    let stored = cache_messages k merged (archive_each new c) in
    let at : conv_of k (set_conv k merged stored) ≡ some merged =
      ground (arith, conv_of-set_conv stored k k merged, eq_refl k) in
    ap (λ o. find (is_id i) (o or_else [])) at
    ∙ find-sort_by_seq i (existing ++ new) (appended-IsUnique existing ms u)
    ∙ ground (
      arith,
      find-append i existing new,
      find-unseen i (map (λ m. m.id) existing) ms,
      is_among-map i existing,
      is_some-find i existing,
    )

merge_messages-AllUnique :
    (k : String) (ms : List ChatMessage) (c : Client)
    → AllUnique c
    → AllUnique (merge_messages k ms c)
unfolding merge_messages
merge_messages-AllUnique k ms c h =
    let existing = conv_of k c or_else [] in
    let new = unseen (map (λ m. m.id) existing) ms in
    let merged = sort_by_seq (existing ++ new) in
    set_conv-AllUnique k merged c (cache_messages k merged (archive_each new c))
      (chat-cache_messages (archive_each new c) k merged ∙ chat-archive_each new c)
      (merged-IsUnique existing ms (existing-IsUnique c k h)) h

-- What the answer of the archive does to a client: it merges, or nothing.
on_archive_rows_lem :
    (k i : String) (rows : Option (List ArchivedMessage)) (c : Client)
    → AllUnique c
    → (AllUnique (on_archive_rows k rows c))
      × ((on_archive_rows k rows c).has_archive ≡ c.has_archive)
      × (shown k i (on_archive_rows k rows c) ≡ (
          if is_some (shown k i c)
          then shown k i c
          else find (is_id i) (map from_archived (rows or_else []))))
unfolding on_archive_rows
on_archive_rows_lem k i none c h = (h, refl, ground arith)
on_archive_rows_lem k i (some []) c h = (h, refl, ground arith)
on_archive_rows_lem k i (some (r ∷ rows)) c h =
    let ms = map from_archived (r ∷ rows) in
    (
      merge_messages-AllUnique k ms c h,
      has_archive-merge_messages k ms c,
      shown-merge_messages k i ms c (existing-IsUnique c k h),
    )

on_server_messages_lem :
    (k i : String) (answer : Option (List ChatMessage)) (c : Client)
    → AllUnique c
    → c.has_archive ≡ true
    → (AllUnique (on_server_messages k answer c))
      × (shown k i (on_server_messages k answer c)
          ≡ (if is_some (shown k i c) then shown k i c else find (is_id i) (answer or_else [])))
unfolding on_server_messages
on_server_messages_lem k i none c h local = (h, ground arith)
on_server_messages_lem k i (some ms) c h local = (
  subst (λ b. AllUnique (if b then merge_messages k ms c else set_messages k ms c)) (sym local)
      (merge_messages-AllUnique k ms c h),
  ap (λ b. shown k i (if b then merge_messages k ms c else set_messages k ms c)) local
      ∙ shown-merge_messages k i ms c (existing-IsUnique c k h),
)

enter_lem :
    (k i : String) (c : Client)
    → AllUnique c
    → (AllUnique (enter k c))
      × ((enter k c).has_archive ≡ c.has_archive)
      × (shown k i (enter k c) ≡ shown k i c)
unfolding enter clear_unread
enter_lem k i c h = elim (Bool-cases (is_some (get k c.chat.mention_by_conv))) [
  | inl e ↦ rw e (h, refl, refl)
  | inr e ↦ rw e (h, refl, refl)
]

-- On a client with an archive, in whose memory no message stands twice, a conversation that is opened
-- shows under an id the message that memory held, else the one of the answer that comes first, the
-- archive's or the server's, else the one of the other: what comes second for an id that is shown is
-- not shown.
pub shown-opened :
    (k i : String) (rows : Option (List ArchivedMessage)) (answer : Option (List ChatMessage))
    (c : Client)
    → AllUnique c
    → c.has_archive ≡ true
    → let archived = find (is_id i) (map from_archived (rows or_else [])) in
      let served = find (is_id i) (answer or_else []) in
      (shown k i (on_server_messages k answer (on_archive_rows k rows (enter k c))) ≡ (
        if is_some (shown k i c)
        then shown k i c
        else if is_some archived
        then archived
        else served))
      × (shown k i (on_archive_rows k rows (on_server_messages k answer (enter k c))) ≡ (
          if is_some (shown k i c)
          then shown k i c
          else if is_some served
          then served
          else archived))
shown-opened k i rows answer c h local =
    let entered = enter k c in
    let (u, kept, same) = enter_lem k i c h in
    let (v, kept', found) = on_archive_rows_lem k i rows entered u in
    let archive_first = on_server_messages_lem k i answer (on_archive_rows k rows entered) v in
    let (w, told) = on_server_messages_lem k i answer entered u (kept ∙ local) in
    let server_first = on_archive_rows_lem k i rows (on_server_messages k answer entered) w in
    (
      ground (arith, (archive_first (kept' ∙ kept ∙ local)).1, found, same),
      ground (arith, server_first.2, told, same),
    )
