-- ===== src/View/Mentions.antt =====
-- Whom `extractMentions` of client/src/components/ChatView.tsx mentions.
use mathlib.Core.Path.{subst}
use dfchat.Common.{
  sym, String, ◌≡◌, refl, ◌∙◌, Bool, false, not, ◌&&◌, ◌||◌, none, some, List, [], ◌∷◌, ◌++◌, arith,
  if◌then◌else◌, ◌==◌, eq_iff, any, Bool-cases, Option-cases, inl, inr,
}
use dfchat.Common.Dict.{Dict, get}
use dfchat.View.Text.{handles, ids_of, extract_mentions}

abbrev pub is_in_list : String → List String → Bool
is_in_list id ids = any (λ i. i == id) ids

abbrev pub IsDistinct : List String → Type 0
IsDistinct [] = Unit {0}
IsDistinct (i ∷ is) = (is_in_list i is ≡ false) × IsDistinct is

is_in_list-append :
    (id : String) (xs ys : List String)
    → is_in_list id (xs ++ ys) ≡ (is_in_list id xs || is_in_list id ys)
is_in_list-append id [] ys = refl
is_in_list-append id (x ∷ xs) ys = ground (arith, is_in_list-append id xs ys)

snoc-IsDistinct :
    (id : String) (xs : List String)
    → is_in_list id xs ≡ false
    → IsDistinct xs
    → IsDistinct (xs ++ id ∷ [])
snoc-IsDistinct id [] new h = (refl, tt)
snoc-IsDistinct id (x ∷ xs) new (new', h) = (
  ground (arith, is_in_list-append x xs (id ∷ []), eq_iff x id, eq_iff id x),
  snoc-IsDistinct id xs (ground (arith, new)) h,
)

module _ (lower : String → String) (ids : Dict String) where
  -- whether the handle is the name of the member
  abbrev pub is_name_of : String → String → Bool
  is_name_of id h = elim (get (lower h) ids) [ none ↦ false | some i ↦ (i == id) && not (i == "") ]

  -- The list has the ids of another and the members that the handles name, none twice.
  abbrev Adds : List String → List String → List String → Type 0
  Adds out hs after =
      IsDistinct after
      × ((id : String) → is_in_list id after ≡ (is_in_list id out || any (is_name_of id) hs))

  ids_of-skip :
      (out hs : List String) (h : String)
      → get (lower h) ids ≡ none
      → ids_of lower ids out (h ∷ hs) ≡ ids_of lower ids out hs
  unfolding ids_of
  ids_of-skip out hs h e = rw (e, ids_of) refl

  ids_of-found :
      (out hs : List String) (h i : String)
      → get (lower h) ids ≡ some i
      → ids_of lower ids out (h ∷ hs) ≡ (
          if (i == "") || is_in_list i out
          then ids_of lower ids out hs
          else ids_of lower ids (out ++ i ∷ []) hs)
  unfolding ids_of
  ids_of-found out hs h i e = rw (e, ids_of) refl

  ids_of-Adds : (out hs : List String) → IsDistinct out → Adds out hs (ids_of lower ids out hs)
  unfolding ids_of
  ids_of-Adds out [] d = (d, λ id. ground arith)
  ids_of-Adds out (h ∷ hs) d = elim (Option-cases (get (lower h) ids)) [
    | inl e ↦
        let (d', same) = ids_of-Adds out hs d in
        subst (Adds out (h ∷ hs)) (sym (ids_of-skip out hs h e))
          (d', λ id. ground (arith, same id, e))
    | inr (i, e) ↦ elim (Bool-cases ((i == "") || is_in_list i out)) [
      | inl old ↦
          let (d', same) = ids_of-Adds out hs d in
          subst (Adds out (h ∷ hs)) (sym (ids_of-found out hs h i e ∙ rw old refl))
            (d', λ id. ground (arith, same id, e, old, eq_iff i id))
      | inr new ↦
          let d'' = snoc-IsDistinct i out (ground (arith, new)) d in
          let (d', same) = ids_of-Adds (out ++ i ∷ []) hs d'' in
          subst (Adds out (h ∷ hs)) (sym (ids_of-found out hs h i e ∙ rw new refl)) (
            d',
            λ id. ground (arith, same id, e, new, eq_iff i id, is_in_list-append id out (i ∷ [])),
          )
    ]
  ]

  -- A member is mentioned exactly if the text has a handle, whatever its case, that is the name of the
  -- member, and none is mentioned twice.
  pub extract_mentions_lem :
      (input : String)
      → IsDistinct (extract_mentions lower ids input)
        × ((id : String)
            → is_in_list id (extract_mentions lower ids input)
              ≡ any (is_name_of id) (handles input))
  extract_mentions_lem input = ids_of-Adds [] (handles input) tt
