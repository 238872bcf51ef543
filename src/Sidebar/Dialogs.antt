-- ===== src/Sidebar/Dialogs.antt =====
-- client/src/components/FriendSidebar.tsx: SidebarModals. The effect of a change of the dialog runs
-- with the change; `submit` is cut where it waits.
use dfchat.Common.{
  ℕ, zero, suc, ap, String, Bool, true, false, Option, none, some, List, [], ◌∷◌, ◌≡◌, refl,
  ◌or_else◌, ◌⊎◌, inl, inr, if◌then◌else◌,
}
use dfchat.View.Text.{trim}
use dfchat.Markdown.Inline.{is_blank}
use dfchat.Api.{Endpoint}
use dfchat.Api.Friends.{add_friend}
use dfchat.Api.Groups.{create_group, join_group, create_channel}
use dfchat.Sidebar.{join_code}

-- ModalKind
pub data Modal : Type 0 where
  adds_friend creates_group joins_group : Modal
  creates_channel : String → Modal

pub record Dialog : Type 0 where
  pub modal : Option Modal
  pub input : String
  pub error : Option String
  pub busy : Bool

-- `setModal` with the effect
unfoldable pub show_modal : Option Modal → Dialog
show_modal modal = record { modal = modal; input = ""; error = none; busy = false }

abbrev pub type_input : String → Dialog → Dialog
type_input s d = record d { input = s }

-- the first request of the dialog's handler
unfoldable pub first_request : Modal → String → Endpoint
first_request adds_friend s = add_friend s
first_request creates_group s = create_group s
first_request joins_group s = join_group (join_code s)
first_request (creates_channel group_id) s = create_channel group_id s

-- `submit` up to the handler, which a key press calls also while the dialog waits
unfoldable pub submit : Dialog → Dialog × Option Endpoint
submit d = elim d.modal [
  | none ↦ (d, none)
  | some m ↦
      if is_blank (trim d.input)
      then (d, none)
      else (record d { error = none; busy = true }, some (first_request m (trim d.input)))
]

-- and from its end: `inr` is the message of an error
unfoldable pub on_submitted : Unit {0} ⊎ Option String → Dialog → Dialog
on_submitted (inl done) d = show_modal none
on_submitted (inr why) d = record d { error = some (why or_else "操作失败"); busy = false }

abbrev sent_by : Option Endpoint → List Endpoint → List Endpoint
sent_by none es = es
sent_by (some e) es = e ∷ es

-- Enter, pressed a number of times
unfoldable pub press_enter : ℕ → Dialog → Dialog × List Endpoint
press_enter zero d = (d, [])
press_enter (suc n) d =
    let r = submit d in let rest = press_enter n r.0 in (rest.0, sent_by r.1 rest.1)

abbrev repeated : ℕ → Endpoint → List Endpoint
repeated zero e = []
repeated (suc n) e = e ∷ repeated n e

-- Each key press before the answer makes the request again.
press_enter-repeated :
    (n : ℕ) (d : Dialog) (m : Modal)
    → d.modal ≡ some m
    → is_blank (trim d.input) ≡ false
    → (press_enter n d).1 ≡ repeated n (first_request m (trim d.input))
unfolding press_enter submit
press_enter-repeated zero d m shown filled = refl
press_enter-repeated (suc n) d m shown filled =
    rw (shown, filled)
      (ap (λ es. first_request m (trim d.input) ∷ es)
        (press_enter-repeated n
          (record { modal = some m; input = d.input; error = none; busy = true }) m refl filled))

-- An answer closes the dialog that is open when it comes, whichever that is.
late_answer : (m : Modal) → (on_submitted (inl tt) (show_modal (some m))).modal ≡ none
unfolding on_submitted show_modal
late_answer m = refl
