-- ===== src/Register/Flow.antt =====
-- client/src/pages/Register.tsx: the draw of account numbers and the registration. A handler that waits
-- for the server is one function up to the request and one for the answer.
use dfchat.Common.{
  ℕ, String, Bool, true, false, not, ◌&&◌, ◌||◌, Option, none, some, List, [], ◌∷◌, nat_eq,
  if◌then◌else◌, ◌or_else◌, ◌==◌, all, is_some, ◌⊎◌, inl, inr,
}
use dfchat.View.Text.{trim}
use dfchat.Markdown.Inline.{is_blank, strip}
use dfchat.Register.{username_ok, check_email, check_password}

pub data Page : Type 0 where
  form pick : Page

pub record Form : Type 0 where
  pub username : String
  pub email : String
  pub password : String
  pub confirm_password : String
  pub nickname : String
  pub website : String

-- The state of the page; `account` is what a registration ended with: whether the login after it
-- succeeded.
pub record Registration : Type 0 where
  pub page : Page
  pub numbers : List String
  pub selection_token : String
  pub refreshes_left : ℕ
  pub picked_no : Option String
  pub drawing : Bool
  pub draw_error : Option String
  pub fields : Form
  pub error : Option String
  pub loading : Bool
  pub all_touched : Bool
  pub account : Option Bool

pub record Draw : Type 0 where
  pub numbers : List String
  pub selection_token : String
  pub refreshes_left : ℕ

-- `doDraw`, up to its request and with the answer or the message of the error
abbrev pub start_draw : Registration → Registration
start_draw r = record r { drawing = true; draw_error = none }

unfoldable pub on_drawn : Draw ⊎ Option String → Registration → Registration
on_drawn (inl d) r = record r {
  numbers = d.numbers;
  selection_token = d.selection_token;
  refreshes_left = d.refreshes_left;
  picked_no = none;
  drawing = false;
}
on_drawn (inr why) r = record r {
  draw_error = some (why or_else "获取号码失败，请刷新页面重试");
  drawing = false;
}

-- `doRefresh`, with whether it asks the server
unfoldable pub start_refresh : Registration → Registration × Bool
start_refresh r =
    if r.selection_token == "" || nat_eq r.refreshes_left 0
    then (r, false)
    else (start_draw r, true)

unfoldable pub on_refreshed_numbers : Draw ⊎ Option String → Registration → Registration
on_refreshed_numbers (inl d) r = record r {
  numbers = d.numbers;
  refreshes_left = d.refreshes_left;
  picked_no = none;
  drawing = false;
}
on_refreshed_numbers (inr why) r = record r {
  draw_error = some (why or_else "换一批失败");
  drawing = false;
}

-- `proceedToPick` with the answer to its draw
unfoldable pub on_first_draw : Draw ⊎ Option String → Registration → Registration
on_first_draw answer r = record (on_drawn answer r) { page = pick; loading = false }

module _ (lower : String → String) where
  -- `formStepOk` and `canSubmit`
  unfoldable pub form_step_ok : Form → Bool
  form_step_ok f =
      username_ok f.username
      && ((check_email lower f.email).0
          && (all (λ ok. ok) (check_password lower f.password)
              && (not (is_blank f.confirm_password) && (f.confirm_password == f.password))))

  unfoldable pub can_submit : Registration → Bool
  can_submit r = form_step_ok r.fields && (is_some r.picked_no && not r.loading)

  -- `proceedToPick` up to its draw, with whether it draws
  unfoldable pub proceed_to_pick : Registration → Registration × Bool
  proceed_to_pick r =
      if form_step_ok r.fields
      then (start_draw (record r { error = none; loading = true }), true)
      else (record r { error = none; all_touched = true }, false)

  -- `confirmRegister`, with whether it asks the server
  unfoldable pub confirm_register : Registration → Registration × Bool
  confirm_register r =
      if can_submit r
      then (record r { error = none; loading = true }, true)
      else (record r { error = none }, false)

-- What it sends: the user name, the address, the password, the nickname, the number, the token of the
-- draw and the field that only bots fill.
abbrev pub Payload : Type 0
Payload = List String

unfoldable pub payload : String → Registration → Payload
payload account_no r =
    let f = r.fields in
    let nickname = trim f.nickname in
    trim f.username
    ∷ trim f.email
    ∷ f.password
    ∷ (if nickname == "" then trim f.username else nickname)
    ∷ account_no
    ∷ r.selection_token
    ∷ f.website
    ∷ []

-- whether a text stands in another
abbrev pub contains : String → String → Bool
contains t String.[] = is_blank t
contains t (String.◌∷◌ c s) = is_some (strip t (String.◌∷◌ c s)) || contains t s

-- The answer to a registration: whether the login that follows succeeds, or the error, and with it
-- whether another draw starts.
unfoldable pub on_registered : Bool ⊎ Option String → Registration → Registration × Bool
on_registered (inl logged_in) r = (record r { loading = false; account = some logged_in }, false)
on_registered (inr none) r = (record r { error = some "注册失败"; loading = false }, false)
on_registered (inr (some why)) r =
    let told = record r { error = some why; loading = false } in
    if contains "账号" why || contains "摇号" why
    then (start_draw told, true)
    else if contains "用户名" why || contains "邮箱" why
    then (record told { page = form }, false)
    else (told, false)
