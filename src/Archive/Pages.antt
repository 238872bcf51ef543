-- ===== src/Archive/Pages.antt =====
-- Which rows `queryByConv` of client/electron/archive.ts returns.
use mathlib.Core.List.{Perm}
use mathlib.Core.List.Perm
use mathlib.Core.Path.{subst}
use dfchat.Common.{
  ℕ, zero, suc, String, ◌≡◌, refl, ap, sym, ◌∙◌, ◌<◌, ◌^◌, Bool, true, Option, none, some, List, [],
  ◌∷◌, ◌++◌, arith, ◌==◌, ◌&&◌, ltb, leb, keep, take, length, min, max, Bool-cases, inl, inr,
}
use dfchat.Archive.{ArchivedMessage, Cipher, JsonText}
use dfchat.Archive.Table.{
  ◌>>=◌, traverse, Row, insert_newest, newest_first, select_conv, clamp_limit, decode,
}
use dfchat.Archive.Api.{Archive, query_by_conv}
use dfchat.Archive.Queries.{TopRow, IsPageOfRows, newest_first-IsPageOfRows}
use dfchat.Archive.Refinement.{IsReadable, IsOpen}

abbrev pub drop {ℓ} : {A : Type ℓ} → ℕ → List A → List A
drop zero xs = xs
drop (suc n) [] = []
drop (suc n) (x ∷ xs) = drop n xs

take-drop {ℓ} : {A : Type ℓ} (n : ℕ) (xs : List A) → take n xs ++ drop n xs ≡ xs
take-drop zero xs = refl
take-drop (suc n) [] = refl
take-drop (suc n) (x ∷ xs) = ap (λ l. x ∷ l) (take-drop n xs)

length-take {ℓ} : {A : Type ℓ} (n : ℕ) (xs : List A) → length (take n xs) ≡ min n (length xs)
length-take zero xs = omega arith
length-take (suc n) [] = omega arith
length-take (suc n) (x ∷ xs) = omega (arith, length-take n xs)

-- A number below the bound, if there is one.
abbrev pub is_older : Option ℕ → ℕ → Bool
is_older none seq = true
is_older (some before) seq = ltb seq before

module _ {c : Cipher} where
  -- The rows of a conversation that are older than the bound.
  abbrev pub rows_of : String → Option ℕ → List (Row c) → List (Row c)
  rows_of conv_id before rows =
      keep (λ r. (r.conversation_id == conv_id) && is_older before r.seq) rows

  abbrev pub IsNewestFirst : List (Row c) → Type 0
  IsNewestFirst [] = Unit {0}
  IsNewestFirst (r ∷ rows) = TopRow {c = c} r.seq rows × IsNewestFirst rows

  page-IsNewestFirst :
      (conv_id : String) (before : Option ℕ) (rows : List (Row c))
      → IsPageOfRows {c = c} conv_id before rows
      → IsNewestFirst rows
  page-IsNewestFirst conv_id before [] h = tt
  page-IsNewestFirst conv_id before (r ∷ rows) (e, b, t, h) =
      (t, page-IsNewestFirst conv_id before rows h)

  insert_newest-perm :
      (r : Row c) (rows : List (Row c)) → Perm (insert_newest {c = c} r rows) (r ∷ rows)
  insert_newest-perm r [] = Perm.rfl
  insert_newest-perm r (s ∷ rows) = elim (Bool-cases (leb s.seq r.seq)) [
    | inl under ↦ rw under Perm.rfl
    | inr over ↦ rw over (Perm.trans (Perm.cons s (insert_newest-perm r rows)) (Perm.swap r s rows))
  ]

  length-insert_newest :
      (r : Row c) (rows : List (Row c)) → length (insert_newest {c = c} r rows) ≡ suc (length rows)
  length-insert_newest r [] = refl
  length-insert_newest r (s ∷ rows) = ground (arith, length-insert_newest r rows)

  newest_first-perm : (rows : List (Row c)) → Perm (newest_first {c = c} rows) rows
  newest_first-perm [] = Perm.rfl
  newest_first-perm (r ∷ rows) =
      Perm.trans (insert_newest-perm r (newest_first {c = c} rows))
        (Perm.cons r (newest_first-perm rows))

  sorted_rows :
      (conv_id : String) (before : Option ℕ) (rows : List (Row c))
      → IsNewestFirst (newest_first {c = c} (rows_of conv_id before rows))
  sorted_rows conv_id none rows =
      page-IsNewestFirst conv_id none _ (newest_first-IsPageOfRows {c = c} conv_id none rows)
  sorted_rows conv_id (some n) rows =
      page-IsNewestFirst conv_id (some n) _
        (newest_first-IsPageOfRows {c = c} conv_id (some n) rows)

  select_conv_lem :
      (conv_id : String) (limit : ℕ) (before : Option ℕ) (rows : List (Row c))
      → select_conv {c = c} conv_id limit before rows
        ≡ take limit (newest_first {c = c} (rows_of conv_id before rows))
  unfolding select_conv
  select_conv_lem conv_id limit none rows = refl
  select_conv_lem conv_id limit (some n) rows = refl

  length-newest_first : (rows : List (Row c)) → length (newest_first {c = c} rows) ≡ length rows
  length-newest_first [] = refl
  length-newest_first (r ∷ rows) =
      length-insert_newest r (newest_first {c = c} rows) ∙ ap suc (length-newest_first rows)

clamp_limit_lem : (limit : ℕ) → limit < 2 ^ 31 → clamp_limit limit ≡ max 1 (min 500 limit)
unfolding clamp_limit
clamp_limit_lem limit low = ground (arith, low)

module _ {c : Cipher} (js : JsonText) (key : c.Key) where
  insert_newest-IsReadable :
      (r : Row c) (rows : List (Row c))
      → ((m : ArchivedMessage) × (decode c js key r ≡ some m))
      → IsReadable {c = c} js key rows
      → IsReadable {c = c} js key (insert_newest {c = c} r rows)
  insert_newest-IsReadable r [] e h = (e, tt)
  insert_newest-IsReadable r (s ∷ rows) e (e', h) = elim (Bool-cases (leb s.seq r.seq)) [
    | inl under ↦ rw under (e, (e', h))
    | inr over ↦ rw over (e', insert_newest-IsReadable r rows e h)
  ]

  first-IsReadable :
      (conv_id : String) (before : Option ℕ) (rows : List (Row c))
      → IsReadable {c = c} js key rows
      → IsReadable {c = c} js key (newest_first {c = c} (rows_of {c = c} conv_id before rows))
  first-IsReadable conv_id before [] h = tt
  first-IsReadable conv_id before (r ∷ rows) (e, h) =
      let rest = first-IsReadable conv_id before rows h in
      elim (Bool-cases ((r.conversation_id == conv_id) && is_older before r.seq)) [
        | inl fits ↦ rw fits (insert_newest-IsReadable r _ e rest)
        | inr out ↦ rw out rest
      ]

  traverse-take :
      (n : ℕ) (rows : List (Row c))
      → IsReadable {c = c} js key rows
      → (ms : List ArchivedMessage) × (traverse (decode c js key) (take n rows) ≡ some ms)
  traverse-take zero rows h = ([], refl)
  traverse-take (suc n) [] h = ([], refl)
  traverse-take (suc n) (r ∷ rows) ((m, e), h) =
      let (ms, later) = traverse-take n rows h in
      (
        m ∷ ms,
        ap (λ o. o >>= λ y. traverse (decode c js key) (take n rows) >>= λ ys. some (y ∷ ys)) e
            ∙ ap (λ o. o >>= λ ys. some (m ∷ ys)) later,
      )

-- On an open archive with readable rows, for a limit below 2^31, `queryByConv` gives, decoded and in
-- their order, the first of all rows of the conversation that are older than the number, if there is
-- one, when these are arranged newest first: as many as the limit says, raised to 1 and cut off at 500,
-- or all if there are fewer.
pub query_by_conv-AreFirst :
    {c : Cipher} {Blob : Type 0} (js : JsonText) (key : c.Key) (conv_id : String) (limit : ℕ)
    (before : Option ℕ) (a : Archive c Blob)
    → limit < 2 ^ 31
    → IsOpen {c = c} js key a
    → let found = rows_of {c = c} conv_id before a.rows in
      (ms : List ArchivedMessage) × (page rest : List (Row c)) × (query_by_conv {c = c} js conv_id
          limit before a
        ≡ some ms)
      × (traverse (decode c js key) page ≡ some ms)
      × Perm (page ++ rest) found
      × IsNewestFirst {c = c} (page ++ rest)
      × (length page ≡ min (max 1 (min 500 limit)) (length found))
unfolding query_by_conv
query_by_conv-AreFirst {c} js key conv_id limit before a low h =
    let found = rows_of {c = c} conv_id before a.rows in
    let rows = newest_first {c = c} found in
    let n = clamp_limit limit in
    let same = take-drop n rows in
    let (ms, read) =
      traverse-take {c = c} js key n rows
        (first-IsReadable {c = c} js key conv_id before a.rows h.readable) in
    (
      ms,
      take n rows,
      drop n rows,
      ap (λ o. o >>= λ k. traverse (decode c js k) (select_conv {c = c} conv_id n before a.rows))
            h.ready
          ∙ ap (traverse (decode c js key)) (select_conv_lem {c = c} conv_id n before a.rows)
          ∙ read,
      read,
      subst (λ l. Perm l found) (sym same) (newest_first-perm {c = c} found),
      subst (IsNewestFirst {c = c}) (sym same) (sorted_rows {c = c} conv_id before a.rows),
      omega
          (arith, length-take n rows, length-newest_first {c = c} found, clamp_limit_lem limit low),
    )
