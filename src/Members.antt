-- ===== src/Members.antt =====
-- client/src/components/MembersPanel.tsx: what the panel offers for a member, and what the handlers of
-- server/internal/group/handler.go allow. `lower` is `toLowerCase`.
pub mod Allowed
use dfchat.Common.{
  ℕ, String, Bool, true, false, not, ◌&&◌, ◌||◌, Option, none, some, List, [], ◌∷◌, leb, nat_eq,
  if◌then◌else◌, ◌or_else◌, ◌==◌, keep, any,
}
use dfchat.Types.{GroupMember}
use dfchat.View.Text.{trim}
use dfchat.Markdown.Inline.{is_blank}
use dfchat.Register.Flow.{contains}

-- the role of the first member with the id
unfoldable pub role_of : String → List GroupMember → Option ℕ
role_of id [] = none
role_of id (m ∷ ms) = if m.user_id == id then some m.role else role_of id ms

-- `myRole`
unfoldable pub my_role : (me : String) → List GroupMember → ℕ
my_role me ms = role_of me ms or_else 0

module _ (owner_id me : String) (members : List GroupMember) where
  -- `canPromote`, `canDemote` and `canKickMe`
  unfoldable pub can_promote : GroupMember → Bool
  can_promote m = (me == owner_id) && (not (m.user_id == owner_id) && nat_eq m.role 0)

  unfoldable pub can_demote : GroupMember → Bool
  can_demote m = (me == owner_id) && (not (m.user_id == owner_id) && nat_eq m.role 1)

  unfoldable pub can_kick : GroupMember → Bool
  can_kick m =
      not (m.user_id == me)
      && (not (m.user_id == owner_id)
          && ((me == owner_id) || (nat_eq (my_role me members) 1 && nat_eq m.role 0)))

  -- whether the button to leave is shown
  unfoldable pub can_leave : Bool
  can_leave = not (me == owner_id) && any (λ m. m.user_id == me) members

  -- `setMemberRole` of the server, with the roles that it stores
  unfoldable pub allows_role : (target : String) → (role : ℕ) → Bool
  allows_role target role =
      let stored : Bool = elim (role_of target members) [
        | none ↦ false
        | some r ↦ not (nat_eq r 2)
      ] in
      (me == owner_id) && (not (target == owner_id) && (leb role 1 && stored))

  -- `kickMember` of the server
  unfoldable pub allows_kick : (target : String) → Bool
  allows_kick target =
      let stored : Bool = elim (role_of me members) [
        | none ↦ false
        | some mine ↦ elim (role_of target members) [
          | none ↦ false
          | some r ↦
              not (nat_eq mine 0) && (not (nat_eq mine 1 && leb 1 r) && not (target == owner_id))
        ]
      ] in
      not (target == me) && stored

-- `visibleMembers`
module _ (lower : String → String) where
  unfoldable pub visible_members : (search : String) → List GroupMember → List GroupMember
  visible_members search members =
      let q = lower (trim search) in
      if is_blank (trim search)
      then members
      else keep (λ m. contains q (lower m.username) || contains q (lower m.nickname)) members
