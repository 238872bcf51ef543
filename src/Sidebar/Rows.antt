-- ===== src/Sidebar/Rows.antt =====
-- client/src/components/FriendSidebar.tsx: ChannelRow, with the callbacks that its owner gives it. A
-- handler is cut where it waits.
use dfchat.Common.{
  String, Bool, true, false, not, ◌&&◌, ◌||◌, Option, none, some, List, [], ◌∷◌, if◌then◌else◌,
  ◌==◌,
}
use dfchat.Types.{Channel}
use dfchat.Chat.{ChatState, channel}
use dfchat.Chat.Marks.{set_channels, set_active_target}
use dfchat.View.Text.{trim}
use dfchat.Markdown.Inline.{is_blank}
use dfchat.Api.{Endpoint}
use dfchat.Api.Groups.{rename_channel, delete_channel}

pub record Row : Type 0 where
  pub editing : Bool
  pub draft : String
  pub busy : Bool
  pub menu_open : Bool

-- a row whose name is new
abbrev pub on_name : String → Row → Row
on_name name r = record r { draft = name }

abbrev pub on_double_click : (can_manage : Bool) → Row → Row
on_double_click can_manage r = if can_manage then record r { editing = true } else r

abbrev pub on_escape : (name : String) → Row → Row
on_escape name r = record r { editing = false; draft = name }

-- the entry of the menu for a rename
abbrev pub on_rename : Row → Row
on_rename r = record r { menu_open = false; editing = true }

-- `saveRename`: the request, or none where the name is empty or the same
unfoldable pub save_rename : (channel_id name : String) → Row → Row × Option Endpoint
save_rename channel_id name r =
    let next = trim r.draft in
    if is_blank next || (next == name)
    then (record r { editing = false }, none)
    else (record r { busy = true }, some (rename_channel channel_id next))

-- its end, after the new list of channels or an error
unfoldable pub on_saved : Bool → Row → Row
on_saved true r = record r { editing = false; busy = false }
on_saved false r = record r { busy = false }

-- `doDelete` with the answer of the user; a warning is shown for the last channel
unfoldable pub do_delete :
    (channel_id : String) (is_only confirmed : Bool) → Row → Row × Option Endpoint
do_delete channel_id is_only confirmed r0 =
    let r = record r0 { menu_open = false } in
    if not is_only && confirmed
    then (record r { busy = true }, some (delete_channel channel_id))
    else (r, none)

-- `onRenamed` and `onDeleted` with the list that they fetch
unfoldable pub on_renamed : (group_id : String) → List Channel → ChatState → ChatState
on_renamed group_id fresh c = set_channels group_id fresh c

unfoldable pub on_deleted :
    (group_id : String) (active : Bool) → List Channel → ChatState → ChatState
on_deleted group_id active [] c0 =
    let c = set_channels group_id [] c0 in if active then set_active_target none c else c
on_deleted group_id active (f ∷ fresh) c0 =
    let c = set_channels group_id (f ∷ fresh) c0 in
    if active then set_active_target (some (channel group_id f.id)) c else c
