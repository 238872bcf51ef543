-- ===== src/View/Toggle.antt =====
-- What a click on a reaction changes in client/src/components/ChatView.tsx.
use mathlib.Core.Path.{subst}
use dfchat.Common.{
  ℕ, ◌-◌, String, ◌≡◌, refl, ap, sym, true, false, not, ◌&&◌, none, some, List, [], ◌∷◌, ◌++◌,
  arith, nat_eq, if◌then◌else◌, ◌==◌, eq_iff, find, any, Bool-cases, Option-cases, inl, inr,
}
use dfchat.Types.{ReactionCount}
use dfchat.View.Reactions.{
  is_emoji, includes, splice, replace_at, with_user, others, is_empty, toggle,
}
use dfchat.View.Tally.{
  reacted, users, IsCount, IsTally, any-keep, any-append, includes-any, with_user-IsCount,
  without-IsCount, find-splice, find-replace_at, splice-IsTally, replace_at-IsTally, find-snoc,
  snoc-IsTally,
}

found-IsCount :
    (e : String) (r : ReactionCount) (rs : List ReactionCount)
    → IsTally rs
    → find (is_emoji e) rs ≡ some r
    → IsCount r × (r.emoji ≡ e)
found-IsCount e r [] h at = cc
found-IsCount e r (s ∷ rs) (count, new, h) at = elim (Bool-cases (s.emoji == e)) [
  | inl hit ↦
      let same : s ≡ r = ground arith in (rw (← same) count, ground (arith, eq_iff s.emoji e))
  | inr miss ↦ found-IsCount e r rs h (ground arith)
]

-- What the click should do to who has reacted with what.
abbrev Toggles : ℕ → String → List ReactionCount → List ReactionCount → Type 0
Toggles me e before after =
    IsTally after
    × ((u : ℕ) (j : String)
        → reacted u j after
          ≡ (if (e == j) && nat_eq u me then not (reacted me e before) else reacted u j before))

same_find :
    (e j : String) (rs : List ReactionCount)
    → (e == j) ≡ true
    → find (is_emoji j) rs ≡ find (is_emoji e) rs
same_find e j rs h = ap (λ i. find (is_emoji i) rs) (sym ((eq_iff e j).0 h))

module _ (me : ℕ) (e : String) (rs : List ReactionCount) (h : IsTally rs) where
  new-Toggles : find (is_emoji e) rs ≡ none → Toggles me e rs (toggle me e rs)
  unfolding toggle
  new-Toggles at =
      let new : ReactionCount = record { emoji = e; count = 1; user_ids = some (me ∷ []) } in
      let becomes : toggle me e rs ≡ rs ++ new ∷ [] = rw (at, toggle) refl in
      subst (Toggles me e rs) (sym becomes) (
        snoc-IsTally new rs (refl, (refl, tt), refl) at h,
        λ u j. elim (Bool-cases (e == j)) [
          | inl same ↦ ground (arith, find-snoc j new rs, same_find e j rs same, at, same)
          | inr other ↦ ground (arith, find-snoc j new rs, other)
        ],
      )

  module _ (r : ReactionCount) (at : find (is_emoji e) rs ≡ some r) where
    on-Toggles : includes me r.user_ids ≡ false → Toggles me e rs (toggle me e rs)
    unfolding toggle
    on-Toggles out =
        let (count, named) = found-IsCount e r rs h at in
        let new = with_user me r in
        let becomes : toggle me e rs ≡ replace_at e new rs = rw (at, toggle, out) refl in
        subst (Toggles me e rs) (sym becomes) (
          replace_at-IsTally e new r rs named (with_user-IsCount me r count out) at h,
          λ u j. elim (Bool-cases (e == j)) [
            | inl same ↦ ground (
              arith,
              find-replace_at e j new r rs named at,
              same_find e j rs same,
              any-append u (users r) (me ∷ []),
              includes-any u r.user_ids,
            )
            | inr other ↦ ground (arith, find-replace_at e j new r rs named at, other)
          ],
        )

    off-Toggles :
        includes me r.user_ids ≡ true
        → is_empty (others me r) ≡ false
        → Toggles me e rs (toggle me e rs)
    unfolding toggle
    off-Toggles mine left =
        let (count, named) = found-IsCount e r rs h at in
        let new = record r { count = r.count - 1; user_ids = some (others me r) } in
        let becomes : toggle me e rs ≡ replace_at e new rs = rw (at, toggle, mine, left) refl in
        subst (Toggles me e rs) (sym becomes) (
          replace_at-IsTally e new r rs named (without-IsCount me r count mine left) at h,
          λ u j. elim (Bool-cases (e == j)) [
            | inl same ↦ ground (
              arith,
              find-replace_at e j new r rs named at,
              same_find e j rs same,
              any-keep me u (users r),
              includes-any u r.user_ids,
            )
            | inr other ↦ ground (arith, find-replace_at e j new r rs named at, other)
          ],
        )

    nobody : is_empty (others me r) ≡ true → (u : ℕ) → any (nat_eq u) (others me r) ≡ false
    nobody = go (others me r)
      where
        go : (us : List ℕ) → is_empty us ≡ true → (u : ℕ) → any (nat_eq u) us ≡ false
        go [] e u = refl
        go (v ∷ us) e u = cc

    gone-Toggles :
        includes me r.user_ids ≡ true
        → is_empty (others me r) ≡ true
        → Toggles me e rs (toggle me e rs)
    unfolding toggle
    gone-Toggles mine gone =
        let becomes : toggle me e rs ≡ splice e rs = rw (at, toggle, mine, gone) refl in
        subst (Toggles me e rs) (sym becomes) (
          splice-IsTally e rs h,
          λ u j. elim (Bool-cases (e == j)) [
            | inl same ↦ ground (
              arith,
              find-splice e j rs h,
              same_find e j rs same,
              any-keep me u (users r),
              nobody gone u,
              includes-any u r.user_ids,
            )
            | inr other ↦ ground (arith, find-splice e j rs h, other)
          ],
        )

-- A click on a reaction, on reactions that count their users: they do so afterwards, the user has the
-- reaction exactly if they did not have it before, and no other user and no other reaction changes.
pub toggle-IsTally :
    (me : ℕ) (e : String) (rs : List ReactionCount)
    → IsTally rs
    → IsTally (toggle me e rs)
      × ((u : ℕ) (j : String)
          → reacted u j (toggle me e rs)
            ≡ (if (e == j) && nat_eq u me then not (reacted me e rs) else reacted u j rs))
toggle-IsTally me e rs h = elim (Option-cases (find (is_emoji e) rs)) [
  | inl at ↦ new-Toggles me e rs h at
  | inr (r, at) ↦ elim (Bool-cases (includes me r.user_ids)) [
    | inr out ↦ on-Toggles me e rs h r at out
    | inl mine ↦ elim (Bool-cases (is_empty (others me r))) [
      | inl gone ↦ gone-Toggles me e rs h r at mine gone
      | inr left ↦ off-Toggles me e rs h r at mine left
    ]
  ]
]
