-- ===== src/Chat/Mirror.antt =====
-- What the calls that client/src/store/chatStore.ts sends do to the archive of
-- client/electron/archive.ts: the two stores seen together.
use mathlib.Core.List.{foldl, reverse-cons, foldl-append, map-append}
use mathlib.Core.Path.{fun_ext}
use dfchat.Common.{
  ℕ, String, ◌≡◌, refl, sym, ap, ◌∙◌, Bool, false, not, ◌&&◌, Option, none, some, List, [], ◌∷◌,
  map, reverse, arith, if◌then◌else◌, ◌==◌, keep, length, nat_eq, Bool-cases, Option-cases, inl,
  inr,
}
use dfchat.Types.{ChatMessage}
use dfchat.Archive.{Cipher, JsonText}
use dfchat.Archive.RoundTrip.{normal}
use dfchat.Archive.Api.{Archive}
use dfchat.Archive.Refinement.{
  View, Write, append, drop_id, spec, written, view, IsOpen, exec_all, exec_all-view,
}
use dfchat.Chat.{
  Client, ArchiveCall, remove, ParseDate, is_past_authority_window, cache_messages, archive_append,
  archive_remove, set_conv, to_archived,
}
use dfchat.Chat.Messages.{
  is_id, conv_of, write_at_id, replace_message, mirror_removal, remove_message,
}
use dfchat.Chat.Lists.{write_at_id_cases}
use dfchat.Chat.Authority.{shown}

-- The write of the archive behind a call, with the nonce that it draws.
abbrev pub to_write : {c : Cipher} → c.Iv → ArchiveCall → Write c
to_write iv (ArchiveCall.append m) = append iv m
to_write iv (remove id) = drop_id id

-- What the archive shows after the calls, of which the latest stands first.
unfoldable pub played : List ArchiveCall → View → View
played [] v j = v j
played (ArchiveCall.append m ∷ calls) v j =
    if m.id == j then some (written (normal m) (played calls v j)) else played calls v j
played (remove id ∷ calls) v j = if id == j then none else played calls v j

played-cons :
    (c : Cipher) (iv : c.Iv) (k : ArchiveCall) (calls : List ArchiveCall) (v : View)
    → played (k ∷ calls) v ≡ spec {c = c} (to_write {c = c} iv k) (played calls v)
unfolding played spec
played-cons c iv (ArchiveCall.append m) calls v = fun_ext λ j. refl
played-cons c iv (remove id) calls v = fun_ext λ j. refl

played-foldl :
    (c : Cipher) (iv : c.Iv) (calls : List ArchiveCall) (v : View)
    → foldl (λ v w. spec {c = c} w v) v (map (to_write {c = c} iv) (reverse calls)) ≡ played calls v
unfolding played
played-foldl c iv [] v = refl
played-foldl c iv (k ∷ calls) v =
    let play = λ (u : View) (w : Write c). spec {c = c} w u in
    let writes = map (to_write {c = c} iv) (reverse calls) in
    ap (λ l. foldl play v (map (to_write {c = c} iv) l)) (reverse-cons k calls)
    ∙ ap (foldl play v) (map-append (to_write {c = c} iv) (reverse calls) (k ∷ []))
    ∙ foldl-append play v writes (to_write {c = c} iv k ∷ [])
    ∙ ap (spec {c = c} (to_write {c = c} iv k)) (played-foldl c iv calls v)
    ∙ sym (played-cons c iv k calls v)

-- The calls that the chat store has sent, carried out in their order by an open archive with readable
-- rows, all succeed, and leave in it for every message id what `played` says.
pub exec_all-played :
    {c : Cipher} {Blob : Type 0} (js : JsonText) (key : c.Key) (iv : c.Iv)
    (calls : List ArchiveCall) (a : Archive c Blob)
    → IsOpen {c = c} js key a
    → (b : Archive c Blob) × (exec_all {c = c} js key (map (to_write {c = c} iv) (reverse calls)) a
        ≡ some b)
      × IsOpen {c = c} js key b
      × ((j : String) → view {c = c} js key b.rows j ≡ played calls (view {c = c} js key a.rows) j)
exec_all-played {c} js key iv calls a h =
    let writes = map (to_write {c = c} iv) (reverse calls) in
    let (b, done, open_b, same) = exec_all-view {c = c} js key writes a h in
    (
      b,
      done,
      open_b,
      λ j. same j ∙ ap (λ v. v j) (played-foldl c iv calls (view {c = c} js key a.rows)),
    )

-- The calls that the effects send.
pub calls-cache_messages :
    (k : String) (ms : List ChatMessage) (c : Client)
    → (cache_messages k ms c).archive_calls ≡ c.archive_calls
unfolding cache_messages
calls-cache_messages k ms c = ground arith

pub calls-stored :
    (k : String) (ms : List ChatMessage) (c : Client)
    → (set_conv k ms (cache_messages k ms c)).archive_calls ≡ c.archive_calls
unfolding set_conv
calls-stored k ms c = calls-cache_messages k ms c

calls-write_at_id :
    (k id : String) (f : ChatMessage → ChatMessage) (xs : List ChatMessage) (c : Client)
    → (write_at_id k id f xs c).archive_calls ≡ c.archive_calls
calls-write_at_id k id f xs c = elim (write_at_id_cases k id f xs c) [
  | inl e ↦ rw e refl
  | inr (i, old, at, same, e) ↦ rw e (calls-stored k _ c)
]

pub played-archive_append :
    (m : ChatMessage) (c : Client) (v : View) (j : String)
    → played (archive_append m c).archive_calls v j ≡ (
        if c.has_archive && (m.id == j)
        then some (written (normal (to_archived m)) (played c.archive_calls v j))
        else played c.archive_calls v j)
unfolding archive_append played to_archived
played-archive_append m c v j = ground arith

played-archive_remove :
    (id : String) (c : Client) (v : View) (j : String)
    → played (archive_remove id c).archive_calls v j
      ≡ (if c.has_archive && (id == j) then none else played c.archive_calls v j)
unfolding archive_remove played
played-archive_remove id c v j = ground arith

-- An edit or a recall stores the message of the event in the archive, over an older copy, if the
-- creation time that it carries is within the horizon, whether the message is shown or not; past the
-- horizon the archive is as it was.
pub played-replace_message :
    (d : ParseDate) (now : ℕ) (m : ChatMessage) (c : Client) (v : View) (j : String)
    → played (replace_message d now m c).archive_calls v j ≡ (
        if not (is_past_authority_window d now m.created_at) && (c.has_archive && (m.id == j))
        then some (written (normal (to_archived m)) (played c.archive_calls v j))
        else played c.archive_calls v j)
unfolding replace_message
played-replace_message d now m c v j =
    elim (Bool-cases (is_past_authority_window d now m.created_at)) [
      | inl past ↦ rw past refl
      | inr recent ↦
          let sent = archive_append m c in
          rw recent (elim (Option-cases (conv_of m.conversation_id sent)) [
            | inl e ↦ rw e (played-archive_append m c v j)
            | inr (xs, e) ↦
                rw (e, calls-write_at_id m.conversation_id m.id (λ old. m) xs sent)
                  (played-archive_append m c v j)
          ])
    ]

-- A message within the horizon.
abbrev pub is_recent : ParseDate → ℕ → Option ChatMessage → Bool
is_recent d now none = false
is_recent d now (some m) = not (is_past_authority_window d now m.created_at)

played-mirror_removal :
    (d : ParseDate) (now : ℕ) (id : String) (o : Option ChatMessage) (c : Client) (v : View)
    (j : String)
    → played (mirror_removal d now id o c).archive_calls v j ≡ (
        if is_recent d now o && (c.has_archive && (id == j))
        then none
        else played c.archive_calls v j)
played-mirror_removal d now id none c v j = refl
played-mirror_removal d now id (some m) c v j = ground (arith, played-archive_remove id c v j)

-- A removal drops the archive's copy only of a message that is shown and within the horizon. The copy
-- of one past it, or of one that is not in memory, stays.
pub played-remove_message :
    (d : ParseDate) (now : ℕ) (k id : String) (c : Client) (v : View) (j : String)
    → played (remove_message d now k id c).archive_calls v j ≡ (
        if is_recent d now (shown k id c) && (c.has_archive && (id == j))
        then none
        else played c.archive_calls v j)
unfolding remove_message
played-remove_message d now k id c0 v j =
    let c = mirror_removal d now id (shown k id c0) c0 in
    let mirrored = played-mirror_removal d now id (shown k id c0) c0 v j in
    elim (Option-cases (conv_of k c)) [
      | inl e ↦ rw (e, remove_message) mirrored
      | inr (xs, e) ↦
          let next = keep (λ m. not (is_id id m)) xs in
          rw (e, remove_message)
            (elim (Bool-cases (nat_eq (length next) (length xs))) [
              | inl all_kept ↦ rw all_kept mirrored
              | inr fewer ↦ rw (fewer, calls-stored k next c) mirrored
            ])
    ]
