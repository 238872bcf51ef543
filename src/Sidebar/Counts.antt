-- ===== src/Sidebar/Counts.antt =====
-- client/src/components/FriendSidebar.tsx: when the count of all that is unread is hidden.
use dfchat.Common.{ℕ, String, Bool, some, List, [], ◌∷◌, ◌≡◌, refl, ◌↔◌, arith}
use dfchat.Common.Dict.{Dict}
use dfchat.Types.{Friend, Group, Channel}
use dfchat.Seq.{SeqMap}
use dfchat.Home.{private_conv_id}
use dfchat.Sidebar.{unread, sum_of, group_unread, total_unread}

abbrev pub AllZero {ℓ} : {A : Type ℓ} → (A → ℕ) → List A → Type 0
AllZero f [] = Unit
AllZero f (x ∷ xs) = (f x ≡ 0) × AllZero f xs

sum_of-zero {ℓ} : {A : Type ℓ} (f : A → ℕ) (xs : List A) → sum_of f xs ≡ 0 → AllZero f xs
sum_of-zero f [] h = tt
sum_of-zero f (x ∷ xs) h = (omega (arith, h), sum_of-zero f xs (omega (arith, h)))

AllZero-sum_of {ℓ} : {A : Type ℓ} (f : A → ℕ) (xs : List A) → AllZero f xs → sum_of f xs ≡ 0
AllZero-sum_of f [] h = refl
AllZero-sum_of f (x ∷ xs) (h, hs) = omega (arith, h, AllZero-sum_of f xs hs)

module _ (before : String → String → Bool) (me : String) (friends : List Friend)
    (groups : List Group) (channels_by_group : Dict (List Channel)) (last read : SeqMap) where
  -- No friend and no channel that has been loaded has anything unread.
  abbrev pub IsAllRead : Type 0
  IsAllRead =
      AllZero (λ f. unread last read (private_conv_id before me f.id)) friends
      × AllZero (λ g. group_unread channels_by_group last read g.id) groups

  -- The total is zero, and so hidden, exactly if no friend and no loaded channel of a group has
  -- anything unread.
  pub total_unread-zero :
      total_unread before (some me) friends groups channels_by_group last read ≡ 0 ↔ IsAllRead
  unfolding total_unread
  total_unread-zero = (
    λ h. (
      sum_of-zero (λ f. unread last read (private_conv_id before me f.id)) friends
          (omega (arith, h)),
      sum_of-zero (λ g. group_unread channels_by_group last read g.id) groups (omega (arith, h)),
    ),
    λ h. omega (
      arith,
      AllZero-sum_of (λ f. unread last read (private_conv_id before me f.id)) friends h.0,
      AllZero-sum_of (λ g. group_unread channels_by_group last read g.id) groups h.1,
    ),
  )
