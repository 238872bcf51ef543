-- ===== src/View/Reactions.antt =====
-- `handleToggleReaction` of client/src/components/ChatView.tsx: the reactions of a message after the
-- user has clicked one, as the view shows them before the server answers.
use dfchat.Common.{
  ℕ, ◌+◌, ◌-◌, String, Bool, true, false, not, Option, none, some, List, [], ◌∷◌, ◌++◌, nat_eq,
  if◌then◌else◌, ◌or_else◌, ◌==◌, find, any, keep,
}
use dfchat.Types.{ReactionCount}

abbrev pub is_emoji : String → ReactionCount → Bool
is_emoji emoji r = r.emoji == emoji

abbrev pub includes : ℕ → Option (List ℕ) → Bool
includes u none = false
includes u (some us) = any (nat_eq u) us

-- `next.splice(idx, 1)` and `next[idx] = …`, where `idx` is the first with the emoji
unfoldable pub splice : String → List ReactionCount → List ReactionCount
splice emoji [] = []
splice emoji (r ∷ rs) = if is_emoji emoji r then rs else r ∷ splice emoji rs

unfoldable pub replace_at : String → ReactionCount → List ReactionCount → List ReactionCount
replace_at emoji new [] = []
replace_at emoji new (r ∷ rs) = if is_emoji emoji r then new ∷ rs else r ∷ replace_at emoji new rs

-- The entry with the user and without. A count that is less than the users would be negative in the
-- source and is 0 here.
abbrev pub with_user : ℕ → ReactionCount → ReactionCount
with_user me r = record r {
  count = r.count + 1;
  user_ids = some ((r.user_ids or_else []) ++ me ∷ []);
}

abbrev pub others : ℕ → ReactionCount → List ℕ
others me r = keep (λ u. not (nat_eq u me)) (r.user_ids or_else [])

abbrev pub is_empty : List ℕ → Bool
is_empty [] = true
is_empty (u ∷ us) = false

-- The branch for a message with the emoji.
abbrev pub toggle_at : ℕ → String → ReactionCount → List ReactionCount → List ReactionCount
toggle_at me emoji r rs =
    let stripped = others me r in
    let without = record r { count = r.count - 1; user_ids = some stripped } in
    if includes me r.user_ids
    then (if is_empty stripped then splice emoji rs else replace_at emoji without rs)
    else replace_at emoji (with_user me r) rs

unfoldable pub toggle : ℕ → String → List ReactionCount → List ReactionCount
toggle me emoji rs = elim (find (is_emoji emoji) rs) [
  | none ↦ rs ++ record { emoji = emoji; count = 1; user_ids = some (me ∷ []) } ∷ []
  | some r ↦ toggle_at me emoji r rs
]
