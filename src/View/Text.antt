-- ===== src/View/Text.antt =====
-- What client/src/components/ChatView.tsx reads off a text that is typed: its ends without white
-- space, and the members that it mentions. `lower` is `toLowerCase`.
use Prim.Native.Char.{Char, code}
use dfchat.Common.{
  String, Bool, not, ◌&&◌, ◌||◌, Option, none, some, List, [], ◌∷◌, ◌++◌, leb, nat_eq,
  if◌then◌else◌, ◌==◌, any,
}
use dfchat.Common.Dict.{Dict, get, put}
use dfchat.Types.{Friend, GroupMember}

-- the white space and the line ends of ECMAScript
abbrev pub is_space : Char → Bool
is_space c =
    let n = code c in
    (leb 9 n && leb n 13)
    || nat_eq n 32
    || nat_eq n 160
    || nat_eq n 5760
    || (leb 8192 n && leb n 8202)
    || nat_eq n 8232
    || nat_eq n 8233
    || nat_eq n 8239
    || nat_eq n 8287
    || nat_eq n 12288
    || nat_eq n 65279

unfoldable pub trim_start : String → String
trim_start String.[] = ""
trim_start (String.◌∷◌ c s) = if is_space c then trim_start s else String.◌∷◌ c s

unfoldable pub trim_end : String → String
trim_end String.[] = ""
trim_end (String.◌∷◌ c s) =
    let rest = trim_end s in if (rest == "") && is_space c then "" else String.◌∷◌ c rest

-- `s.trim()`
abbrev pub trim : String → String
trim s = trim_end (trim_start s)

-- `[A-Za-z0-9_]`
abbrev pub is_word : Char → Bool
is_word c =
    let n = code c in
    (leb 65 n && leb n 90) || (leb 97 n && leb n 122) || (leb 48 n && leb n 57) || nat_eq n 95

-- the longest start of word characters
unfoldable pub word : String → String
word String.[] = ""
word (String.◌∷◌ c s) = if is_word c then String.◌∷◌ c (word s) else ""

-- What the group of /@([A-Za-z0-9_]+)/g takes, match by match. A match goes on as long as it can and
-- holds no second `@`, so that every `@` before a word character starts one.
unfoldable pub handles : String → List String
handles String.[] = []
handles (String.◌∷◌ c s) =
    let rest = handles s in
    if nat_eq (code c) b'@' && not (word s == "") then word s ∷ rest else rest

-- `n.nickname || n.username`
abbrev pub or_username : String → String → String
or_username nickname username = if nickname == "" then username else nickname

unfoldable pub with_friends : List Friend → Dict String → Dict String
with_friends [] m = m
with_friends (f ∷ fs) m = with_friends fs (put f.id (or_username f.nickname f.username) m)

unfoldable pub with_members : List GroupMember → Dict String → Dict String
with_members [] m = m
with_members (p ∷ ps) m = with_members ps (put p.user_id (or_username p.nickname p.username) m)

-- `nameLookup`; the user stands with the fields of a friend.
unfoldable pub name_lookup : Option Friend → List Friend → Option (List GroupMember) → Dict String
name_lookup me friends members =
    let own : Dict String = elim me [
      | none ↦ []
      | some u ↦ put u.id (or_username u.nickname u.username) []
    ] in
    let known = with_friends friends own in
    elim members [ none ↦ known | some ps ↦ with_members ps known ]

module _ (lower : String → String) where
  unfoldable pub lower_names : Dict String → Dict String → Dict String
  lower_names [] m = m
  lower_names ((id, name) ∷ names) m = lower_names names (put (lower name) id m)

  -- `handleToId`
  abbrev pub handle_to_id : Dict String → Dict String
  handle_to_id names = lower_names names []

  -- the ids of the handles, in the order of their first mention: the loop over a Set
  unfoldable pub ids_of : Dict String → List String → List String → List String
  ids_of ids out [] = out
  ids_of ids out (h ∷ hs) = elim (get (lower h) ids) [
    | none ↦ ids_of ids out hs
    | some id ↦
        let old = ids_of ids out hs in
        let new = ids_of ids (out ++ id ∷ []) hs in
        if (id == "") || any (λ i. i == id) out then old else new
  ]

  -- `extractMentions`
  abbrev pub extract_mentions : Dict String → String → List String
  extract_mentions ids input = ids_of ids [] (handles input)
