-- ===== src/Sidebar.antt =====
-- client/src/components/FriendSidebar.tsx: what the rows show, the rename and the removal of a channel,
-- and the dialogs. `lower` is `toLowerCase`, `before` the order of ids as numbers.
pub mod Invites
pub mod Counts
pub mod Dialogs
pub mod Rows
use Prim.Native.Char.{Char, code}
use Prim.Native.String
use dfchat.Common.{
  ℕ, ◌+◌, ◌-◌, String, Bool, true, false, not, ◌&&◌, ◌||◌, Option, none, some, List, [], ◌∷◌, ltb,
  leb, nat_eq, if◌then◌else◌, ◌or_else◌, ◌==◌, keep, is_some,
}
use dfchat.Common.Dict.{Dict, get}
use dfchat.Types.{Friend, Group, Channel}
use dfchat.Chat.{ChatTarget, friend, channel}
use dfchat.Seq.{SeqMap}
use dfchat.View.Text.{trim, is_space}
use dfchat.Markdown.Inline.{is_blank, run_of, after_run}
use dfchat.Register.{size, all_chars, is_digit, is_ascii_letter}
use dfchat.Register.Flow.{contains}
use dfchat.Home.{private_conv_id}

-- `targetEquals`
unfoldable pub target_equals : Option ChatTarget → ChatTarget → Bool
target_equals none b = false
target_equals (some (friend a)) (friend b) = a == b
target_equals (some (channel g a)) (channel h b) = a == b
target_equals (some (friend a)) (channel h b) = false
target_equals (some (channel g a)) (friend b) = false

-- what UnreadBadge writes, where `show` is a number in digits
unfoldable pub unread_badge : (show : ℕ → String) → (count : ℕ) → (mention : Bool) → Option String
unread_badge show count mention =
    let digits = if ltb 99 count then "99+" else show count in
    if mention
    then some (String.◌∷◌ "@" (if nat_eq count 0 then "" else digits))
    else if nat_eq count 0
    then none
    else some digits

-- `unread`
unfoldable pub unread : (last read : SeqMap) → String → ℕ
unread last read conv_id = (get conv_id last or_else 0) - (get conv_id read or_else 0)

abbrev pub sum_of {ℓ} : {A : Type ℓ} → (A → ℕ) → List A → ℕ
sum_of f [] = 0
sum_of f (x ∷ xs) = f x + sum_of f xs

-- `channelConvId`
abbrev pub channel_conv_id : String → String
channel_conv_id channel_id = String.◌∷◌ "c" (String.◌∷◌ "_" channel_id)

-- `groupUnread`, over the channels that have been loaded
unfoldable pub group_unread : Dict (List Channel) → (last read : SeqMap) → String → ℕ
group_unread channels_by_group last read group_id =
    sum_of (λ c. unread last read (channel_conv_id c.id))
      (get group_id channels_by_group or_else [])

module _ (before : String → String → Bool) where
  -- `totalUnread`
  unfoldable pub total_unread :
      Option String → List Friend → List Group → Dict (List Channel) → (last read : SeqMap) → ℕ
  total_unread me friends groups channels_by_group last read =
      let of_friends : ℕ = elim me [
        | none ↦ 0
        | some id ↦ sum_of (λ f. unread last read (private_conv_id before id f.id)) friends
      ] in
      of_friends + sum_of (λ g. group_unread channels_by_group last read g.id) groups

module _ (lower : String → String) where
  -- `filteredFriends` and `filteredGroups`
  abbrev pub query : String → String
  query search = lower (trim search)

  unfoldable pub filtered_friends : (search : String) → List Friend → List Friend
  filtered_friends search friends =
      let q = query search in
      if is_blank q
      then friends
      else keep
          (λ f.
            contains q (lower (if is_blank f.nickname then f.username else f.nickname))
            || contains q (lower f.username))
          friends

  unfoldable pub filtered_groups : (search : String) → List Group → List Group
  filtered_groups search groups =
      let q = query search in
      if is_blank q then groups else keep (λ g. contains q (lower g.name)) groups

-- The code of an invite: the end of a link, `/[/=]([A-Za-z0-9]{6,})\s*$/`, else the whole text.
abbrev pub is_code : Char → Bool
is_code c = is_digit c || is_ascii_letter c

abbrev pub is_mark : Char → Bool
is_mark c = nat_eq (code c) b'/' || nat_eq (code c) b'='

abbrev pub ends_with_code : String → Bool
ends_with_code s = leb 6 (size (run_of is_code s)) && all_chars is_space (after_run is_code s)

unfoldable pub link_code : String → Option String
link_code String.[] = none
link_code (String.◌∷◌ c s) =
    let rest = link_code s in
    if is_mark c && ends_with_code s then some (run_of is_code s) else rest

unfoldable pub join_code : String → String
join_code code_or_link = trim (link_code code_or_link or_else code_or_link)
