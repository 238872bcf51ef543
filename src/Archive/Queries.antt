-- ===== src/Archive/Queries.antt =====
-- `queryByConv` of client/electron/archive.ts.
use dfchat.Common.{
  ℕ, zero, suc, ◌≤◌, String, ◌≡◌, refl, ap, ◌∙◌, ◌<◌, ◌^◌, true, Option, none, some, List, [], ◌∷◌,
  arith, ◌==◌, ◌&&◌, eq_iff, keep, take, length, Bool-cases, ◌or_else◌, leb, leb→le, inl, inr,
}
use mathlib.Core.Path.{subst}
use dfchat.Archive.{ArchivedMessage, Cipher, JsonText}
use dfchat.Archive.Table.{
  ◌>>=◌, traverse, Row, is_before, insert_newest, newest_first, select_conv, clamp_limit, decode,
}
use dfchat.Archive.Api.{Archive, ready, query_by_conv}
use dfchat.Archive.RoundTrip.{decode_columns}

-- A page of messages of one conversation, each before the given number, newest first.
abbrev pub Top : ℕ → List ArchivedMessage → Type 0
Top n [] = Unit {0}
Top n (m ∷ ms) = m.seq ≤ n

abbrev pub IsPage : String → Option ℕ → List ArchivedMessage → Type 0
IsPage conv_id before [] = Unit {0}
IsPage conv_id before (m ∷ ms) =
    (m.conversation_id ≡ conv_id)
    × (is_before before m.seq ≡ true)
    × Top m.seq ms
    × IsPage conv_id before ms

pub clamp_limit_bounds : (limit : ℕ) → (1 ≤ clamp_limit limit) × (clamp_limit limit ≤ 500)
unfolding clamp_limit
clamp_limit_bounds limit = ground arith

clamp_limit-le : (limit : ℕ) → 1 ≤ limit → limit < 2 ^ 31 → clamp_limit limit ≤ limit
unfolding clamp_limit
clamp_limit-le limit low high = ground arith

pub >>=-eq-some {ℓ κ} :
    {A : Type ℓ} {B : Type κ} (o : Option A) (f : A → Option B) {b : B}
    → (o >>= f) ≡ some b
    → (a : A) × (o ≡ some a) × (f a ≡ some b)
>>=-eq-some none f e = cc
>>=-eq-some (some a) f e = (a, refl, e)

module _ {c : Cipher} where
  abbrev pub TopRow : ℕ → List (Row c) → Type 0
  TopRow n [] = Unit {0}
  TopRow n (r ∷ rows) = r.seq ≤ n

  abbrev pub IsPageOfRows : String → Option ℕ → List (Row c) → Type 0
  IsPageOfRows conv_id before [] = Unit {0}
  IsPageOfRows conv_id before (r ∷ rows) =
      (r.conversation_id ≡ conv_id)
      × (is_before before r.seq ≡ true)
      × TopRow r.seq rows
      × IsPageOfRows conv_id before rows

  insert_newest-TopRow :
      (n : ℕ) (r : Row c) (rows : List (Row c))
      → r.seq ≤ n
      → TopRow n rows
      → TopRow n (insert_newest {c = c} r rows)
  insert_newest-TopRow n r [] h t = h
  insert_newest-TopRow n r (s ∷ rows) h t = ground arith

  insert_newest-IsPageOfRows :
      (conv_id : String) (before : Option ℕ) (r : Row c) (rows : List (Row c))
      → r.conversation_id ≡ conv_id
      → is_before before r.seq ≡ true
      → IsPageOfRows conv_id before rows
      → IsPageOfRows conv_id before (insert_newest {c = c} r rows)
  insert_newest-IsPageOfRows conv_id before r [] e b h = (e, b, tt, tt)
  insert_newest-IsPageOfRows conv_id before r (s ∷ rows) e b (e', b', t, h) =
      elim (Bool-cases (leb s.seq r.seq)) [
        | inl under ↦ rw under (e, b, leb→le s.seq r.seq under, (e', b', t, h))
        | inr over ↦ rw over (
          e',
          b',
          insert_newest-TopRow s.seq r rows (ground arith) t,
          insert_newest-IsPageOfRows conv_id before r rows e b h,
        )
      ]

  pub newest_first-IsPageOfRows :
      (conv_id : String) (before : Option ℕ) (rows : List (Row c))
      → IsPageOfRows conv_id before (
          newest_first {c = c}
            (keep (λ r. (r.conversation_id == conv_id) && is_before before r.seq) rows))
  newest_first-IsPageOfRows conv_id before [] = tt
  newest_first-IsPageOfRows conv_id before (r ∷ rows) =
      let rest = newest_first-IsPageOfRows conv_id before rows in
      elim (Bool-cases ((r.conversation_id == conv_id) && is_before before r.seq)) [
        | inl fits ↦ rw fits (
            insert_newest-IsPageOfRows conv_id before r _
              (ground (arith, eq_iff r.conversation_id conv_id)) (ground arith) rest)
        | inr out ↦ rw out rest
      ]

  take-TopRow : (k n : ℕ) (rows : List (Row c)) → TopRow n rows → TopRow n (take k rows)
  take-TopRow zero n rows t = tt
  take-TopRow (suc k) n [] t = tt
  take-TopRow (suc k) n (r ∷ rows) t = t

  take-IsPageOfRows :
      (conv_id : String) (before : Option ℕ) (k : ℕ) (rows : List (Row c))
      → IsPageOfRows conv_id before rows
      → IsPageOfRows conv_id before (take k rows)
  take-IsPageOfRows conv_id before zero rows h = tt
  take-IsPageOfRows conv_id before (suc k) [] h = tt
  take-IsPageOfRows conv_id before (suc k) (r ∷ rows) (e, b, t, h) =
      (e, b, take-TopRow k r.seq rows t, take-IsPageOfRows conv_id before k rows h)

  length-take-le : (k : ℕ) (rows : List (Row c)) → length (take k rows) ≤ k
  length-take-le zero rows = omega arith
  length-take-le (suc k) [] = omega arith
  length-take-le (suc k) (r ∷ rows) = omega (arith, length-take-le k rows)

module _ (c : Cipher) (js : JsonText) (key : c.Key) (conv_id : String) (before : Option ℕ) where
  abbrev IsDecoded : List (Row c) → List ArchivedMessage → Type 0
  IsDecoded rows ms =
      IsPage conv_id before ms
      × (length ms ≡ length rows)
      × ((n : ℕ) → TopRow {c = c} n rows → Top n ms)

  traverse-IsPage :
      (rows : List (Row c)) (ms : List ArchivedMessage)
      → traverse (decode c js key) rows ≡ some ms
      → IsPageOfRows {c = c} conv_id before rows
      → IsDecoded rows ms
  traverse-IsPage [] ms e h = subst (IsDecoded []) (ap (λ o. o or_else []) e) (tt, refl, λ n t. tt)
  traverse-IsPage (r ∷ rows) ms e (conv, fits, t, h) =
      let (m, decoded, e') = >>=-eq-some (decode c js key r) _ e in
      let (ms', later, e'') = >>=-eq-some (traverse (decode c js key) rows) _ e' in
      let (pages, count, top) = traverse-IsPage rows ms' later h in
      let columns = decode_columns c js key r m decoded in
      subst (IsDecoded (r ∷ rows)) (ap (λ o. o or_else []) e'') (
        (columns.1 ∙ conv, rw columns.4 fits, rw columns.4 (top r.seq t), pages),
        ap suc count,
        λ n under. rw columns.4 under,
      )

-- What `queryByConv` returns is a page: messages of the conversation alone, each before the given
-- number if there is one, newest first, and no more than 500 or than the limit that was asked for,
-- if that is at least 1 and below 2^31.
pub query_by_conv-IsPage :
    {c : Cipher} {Blob : Type 0} (js : JsonText) (conv_id : String) (limit : ℕ) (before : Option ℕ)
    (a : Archive c Blob) (ms : List ArchivedMessage)
    → query_by_conv {c = c} js conv_id limit before a ≡ some ms
    → IsPage conv_id before ms
      × (length ms ≤ 500)
      × (1 ≤ limit → limit < 2 ^ 31 → length ms ≤ limit)
unfolding query_by_conv select_conv
query_by_conv-IsPage {c} js conv_id limit before a ms e =
    let (key, open_key, e') = >>=-eq-some (ready {c = c} a) _ e in
    let rows =
      newest_first {c = c}
        (keep (λ r. (r.conversation_id == conv_id) && is_before before r.seq) a.rows) in
    let (pages, count, _) =
      traverse-IsPage c js key conv_id before (take (clamp_limit limit) rows) ms e' (
        take-IsPageOfRows conv_id before (clamp_limit limit) rows
          (newest_first-IsPageOfRows conv_id before a.rows)) in
    let short = length-take-le (clamp_limit limit) rows in
    let bounds = clamp_limit_bounds limit in
    (
      pages,
      omega (arith, short, bounds, count),
      λ low high. omega (arith, short, count, clamp_limit-le limit low high),
    )
