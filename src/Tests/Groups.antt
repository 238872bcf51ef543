-- ===== src/Tests/Groups.antt =====
-- A group of an owner, an administrator and a member.
use dfchat.Common.{ℕ, String, true, false, ◌≡◌, refl, none, List, [], ◌∷◌}
use dfchat.Types.{GroupMember}
use dfchat.Members.{role_of, my_role, can_kick}
use dfchat.Members.Allowed

abbrev member : String → ℕ → GroupMember
member id role = record {
  user_id = id;
  username = id;
  nickname = id;
  avatar_url = none;
  role = role;
  joined_at = "";
}

abbrev three : List GroupMember
three = member "1" 2 ∷ member "2" 1 ∷ member "3" 0 ∷ []

offers_of_an_administrator :
    (can_kick "1" "2" three (member "3" 0) ≡ true) × (can_kick "1" "3" three (member "2" 1) ≡ false)
unfolding can_kick my_role role_of
offers_of_an_administrator = (refl, refl)
