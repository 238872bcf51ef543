-- ===== src/Members/Allowed.antt =====
-- client/src/components/MembersPanel.tsx and server/internal/group/handler.go: the panel offers what the
-- server allows.
use dfchat.Common.{ℕ, ◌≤◌, String, false, ◌≡◌, some, List, ◌==◌}
use dfchat.Types.{GroupMember}
use dfchat.Members.{role_of}

-- The roles of a group: 2 for the owner, 0 or 1 for every other member.
pub record IsRanked (owner_id : String) (members : List GroupMember) : Type 0 where
  pub owner : role_of owner_id members ≡ some 2
  pub others :
      (id : String) (r : ℕ) → role_of id members ≡ some r → (id == owner_id) ≡ false → r ≤ 1
