-- ===== src/Chat/Lists.antt =====
-- Lists of messages in which no id stands twice, and the list operations of chatStore.ts on them.
use mathlib.Core.List.{reverse-cons}
use dfchat.Common.{
  ℕ, zero, suc, String, ◌≡◌, refl, ◌∙◌, Bool, true, false, ◌||◌, some, List, [], ◌∷◌, ◌++◌, map,
  reverse, drop, arith, ◌==◌, eq_iff, find_index, get_elem?, any, keep, set, Bool-cases,
  Option-cases, ◌⊎◌, inl, inr,
}
use dfchat.Types.{ChatMessage}
use dfchat.Chat.Messages.{is_id, has_id, unseen, insert_by_seq, sort_by_seq, write_at_id}
use dfchat.Chat.{Client, set_conv, cache_messages}

abbrev pub IsUnique : List ChatMessage → Type 0
IsUnique [] = Unit {0}
IsUnique (m ∷ ms) = (has_id m.id ms ≡ false) × IsUnique ms

pub has_id-append :
    (id : String) (xs ys : List ChatMessage) → has_id id (xs ++ ys) ≡ (has_id id xs || has_id id ys)
has_id-append id [] ys = refl
has_id-append id (x ∷ xs) ys = ground (arith, has_id-append id xs ys)

-- No message of the second list has the id of one of the first.
abbrev pub IsApart : List ChatMessage → List ChatMessage → Type 0
IsApart [] ys = Unit {0}
IsApart (x ∷ xs) ys = (has_id x.id ys ≡ false) × IsApart xs ys

pub IsUnique-append :
    (xs ys : List ChatMessage) → IsUnique xs → IsUnique ys → IsApart xs ys → IsUnique (xs ++ ys)
IsUnique-append [] ys u v a = v
IsUnique-append (x ∷ xs) ys (h, u) v (k, a) =
    (ground (arith, has_id-append x.id xs ys), IsUnique-append xs ys u v a)

IsApart-singleton :
    (xs : List ChatMessage) (m : ChatMessage) → has_id m.id xs ≡ false → IsApart xs (m ∷ [])
IsApart-singleton [] m h = tt
IsApart-singleton (x ∷ xs) m h =
    (ground (arith, eq_iff m.id x.id, eq_iff x.id m.id), IsApart-singleton xs m (ground arith))

pub IsUnique-snoc :
    (xs : List ChatMessage) (m : ChatMessage)
    → IsUnique xs
    → has_id m.id xs ≡ false
    → IsUnique (xs ++ m ∷ [])
IsUnique-snoc xs m u h = IsUnique-append xs (m ∷ []) u (refl, tt) (IsApart-singleton xs m h)

has_id-reverse : (id : String) (xs : List ChatMessage) → has_id id (reverse xs) ≡ has_id id xs
has_id-reverse id [] = refl
has_id-reverse id (x ∷ xs) =
    rw (reverse-cons x xs)
      (ground (arith, has_id-append id (reverse xs) (x ∷ []), has_id-reverse id xs))

pub IsUnique-reverse : (xs : List ChatMessage) → IsUnique xs → IsUnique (reverse xs)
IsUnique-reverse [] u = tt
IsUnique-reverse (x ∷ xs) (h, u) =
    rw (reverse-cons x xs)
      (IsUnique-snoc (reverse xs) x (IsUnique-reverse xs u) (has_id-reverse x.id xs ∙ h))

pub has_id-insert_by_seq :
    (id : String) (m : ChatMessage) (xs : List ChatMessage)
    → has_id id (insert_by_seq m xs) ≡ (is_id id m || has_id id xs)
unfolding insert_by_seq
has_id-insert_by_seq id m [] = refl
has_id-insert_by_seq id m (x ∷ xs) = ground (arith, has_id-insert_by_seq id m xs)

pub has_id-sort_by_seq :
    (id : String) (xs : List ChatMessage) → has_id id (sort_by_seq xs) ≡ has_id id xs
unfolding sort_by_seq
has_id-sort_by_seq id [] = refl
has_id-sort_by_seq id (x ∷ xs) =
    ground (arith, has_id-insert_by_seq id x (sort_by_seq xs), has_id-sort_by_seq id xs)

insert_by_seq-IsUnique :
    (m : ChatMessage) (xs : List ChatMessage)
    → has_id m.id xs ≡ false
    → IsUnique xs
    → IsUnique (insert_by_seq m xs)
unfolding insert_by_seq
insert_by_seq-IsUnique m [] h u = (refl, tt)
insert_by_seq-IsUnique m (x ∷ xs) h (k, u) = ground (
  arith,
  eq_iff m.id x.id,
  eq_iff x.id m.id,
  has_id-insert_by_seq x.id m xs,
  insert_by_seq-IsUnique m xs,
)

pub sort_by_seq-IsUnique : (xs : List ChatMessage) → IsUnique xs → IsUnique (sort_by_seq xs)
unfolding sort_by_seq
sort_by_seq-IsUnique [] u = tt
sort_by_seq-IsUnique (x ∷ xs) (h, u) =
    insert_by_seq-IsUnique x (sort_by_seq xs) (has_id-sort_by_seq x.id xs ∙ h)
      (sort_by_seq-IsUnique xs u)

abbrev pub is_among : String → List String → Bool
is_among id seen = any (λ i. i == id) seen

has_id-unseen :
    (id : String) (seen : List String) (ms : List ChatMessage)
    → is_among id seen ≡ true
    → has_id id (unseen seen ms) ≡ false
unfolding unseen
has_id-unseen id seen [] h = refl
has_id-unseen id seen (m ∷ ms) h =
    ground (arith, eq_iff m.id id, has_id-unseen id seen ms, has_id-unseen id (m.id ∷ seen) ms)

pub unseen-IsUnique : (seen : List String) (ms : List ChatMessage) → IsUnique (unseen seen ms)
unfolding unseen
unseen-IsUnique seen [] = tt
unseen-IsUnique seen (m ∷ ms) = ground (
  arith,
  eq_iff m.id m.id,
  has_id-unseen m.id (m.id ∷ seen) ms,
  unseen-IsUnique seen ms,
  unseen-IsUnique (m.id ∷ seen) ms,
)

pub is_among-map :
    (id : String) (xs : List ChatMessage) → is_among id (map (λ m. m.id) xs) ≡ has_id id xs
is_among-map id [] = refl
is_among-map id (x ∷ xs) = ground (arith, is_among-map id xs)

unseen-IsApart :
    (done xs ms : List ChatMessage)
    → ((m : ChatMessage) → has_id m.id xs ≡ true → has_id m.id done ≡ true)
    → IsApart xs (unseen (map (λ m. m.id) done) ms)
unseen-IsApart done [] ms h = tt
unseen-IsApart done (x ∷ xs) ms h = (
  has_id-unseen x.id (map (λ m. m.id) done) ms
      (is_among-map x.id done ∙ h x (ground (arith, eq_iff x.id x.id))),
  unseen-IsApart done xs ms (λ m k. h m (ground (arith, k))),
)

-- A list without repetitions has none with what a merge appends to it, whatever comes in.
pub appended-IsUnique :
    (xs ms : List ChatMessage) → IsUnique xs → IsUnique (xs ++ unseen (map (λ m. m.id) xs) ms)
appended-IsUnique xs ms u =
    let new = unseen (map (λ m. m.id) xs) ms in
    IsUnique-append xs new u (unseen-IsUnique (map (λ m. m.id) xs) ms)
      (unseen-IsApart xs xs ms (λ m h. h))

pub merged-IsUnique :
    (xs ms : List ChatMessage)
    → IsUnique xs
    → IsUnique (sort_by_seq (xs ++ unseen (map (λ m. m.id) xs) ms))
merged-IsUnique xs ms u =
    sort_by_seq-IsUnique (xs ++ unseen (map (λ m. m.id) xs) ms) (appended-IsUnique xs ms u)

has_id-keep :
    (id : String) (p : ChatMessage → Bool) (xs : List ChatMessage)
    → has_id id xs ≡ false
    → has_id id (keep p xs) ≡ false
has_id-keep id p [] h = refl
has_id-keep id p (x ∷ xs) h = ground (arith, has_id-keep id p xs)

pub keep-IsUnique :
    (p : ChatMessage → Bool) (xs : List ChatMessage) → IsUnique xs → IsUnique (keep p xs)
keep-IsUnique p [] u = tt
keep-IsUnique p (x ∷ xs) (h, u) = elim (Bool-cases (p x)) [
  | inl kept ↦ rw kept (has_id-keep x.id p xs h, keep-IsUnique p xs u)
  | inr out ↦ rw out (keep-IsUnique p xs u)
]

-- `xs[i] = m` with a message of the id that stands there.
has_id-set :
    (id : String) (xs : List ChatMessage) (i : ℕ) (old m : ChatMessage)
    → get_elem? xs i ≡ some old
    → m.id ≡ old.id
    → has_id id (set xs i m) ≡ has_id id xs
has_id-set id [] i old m e same = refl
has_id-set id (x ∷ xs) zero old m e same = ground (arith, same)
has_id-set id (x ∷ xs) (suc i) old m e same = ground (arith, has_id-set id xs i old m e same)

pub set-IsUnique :
    (xs : List ChatMessage) (i : ℕ) (old m : ChatMessage)
    → get_elem? xs i ≡ some old
    → m.id ≡ old.id
    → IsUnique xs
    → IsUnique (set xs i m)
set-IsUnique [] i old m e same u = tt
set-IsUnique (x ∷ xs) zero old m e same (h, u) = (ground (arith, same), u)
set-IsUnique (x ∷ xs) (suc i) old m e same (h, u) =
    (has_id-set x.id xs i old m e same ∙ h, set-IsUnique xs i old m e same u)

-- `findIndex` gives an index at which a message of the id stands.
pub find_index-is_id :
    (id : String) (xs : List ChatMessage) (i : ℕ)
    → find_index (is_id id) xs ≡ some i
    → (old : ChatMessage) × (get_elem? xs i ≡ some old) × (old.id ≡ id)
find_index-is_id id [] i e = cc
find_index-is_id id (x ∷ xs) zero e = (x, refl, ground (arith, eq_iff x.id id))
find_index-is_id id (x ∷ xs) (suc i) e = find_index-is_id id xs i (ground arith)

-- An update at an id leaves the client alone, or stores the list with one entry of the id changed.
pub write_at_id_cases :
    (k id : String) (f : ChatMessage → ChatMessage) (xs : List ChatMessage) (c : Client)
    → (write_at_id k id f xs c ≡ c)
      ⊎ ((i : ℕ) × (old : ChatMessage) × (get_elem? xs i ≡ some old)
          × (old.id ≡ id)
          × (write_at_id k id f xs c
              ≡ set_conv k (set xs i (f old)) (cache_messages k (set xs i (f old)) c)))
unfolding write_at_id
write_at_id_cases k id f xs c = elim (Option-cases (find_index (is_id id) xs)) [
  | inl e ↦ inl (rw (e, write_at_id))
  | inr (i, e) ↦
      let (old, at, same) = find_index-is_id id xs i e in
      inr (i, old, at, same, rw (e, at, write_at_id))
]

pub drop-IsUnique : (n : ℕ) (xs : List ChatMessage) → IsUnique xs → IsUnique (drop n xs)
drop-IsUnique zero xs u = u
drop-IsUnique (suc n) [] u = tt
drop-IsUnique (suc n) (x ∷ xs) (h, u) = drop-IsUnique n xs u
