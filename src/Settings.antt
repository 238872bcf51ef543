-- ===== src/Settings.antt =====
-- client/src/pages/Settings.tsx: the forms of the settings. A handler that waits is cut where it waits.
-- `lower` is `toLowerCase`.
pub mod Forms
use Prim.Native.String.{◌++◌}
use dfchat.Common.{
  ℕ, suc, ◌+◌, ◌-◌, ◌*◌, String, Bool, true, false, not, ◌&&◌, ◌||◌, Option, none, some, List, [],
  ◌∷◌, ltb, nat_eq, if◌then◌else◌, ◌or_else◌, ◌==◌, keep, length, is_some,
}
use Prim.Native.Nat.{◌/◌}
use dfchat.View.Text.{trim}
use dfchat.Markdown.Inline.{is_blank}
use dfchat.Register.{size, email_domain}
use dfchat.Register.Flow.{contains}
use dfchat.Api.{Endpoint}
use dfchat.Api.Accounts.{
  update_me, change_password, request_email_change, revoke_session, revoke_other_sessions,
  delete_me,
}

-- The fields of a user that the profile edits.
pub record Profile : Type 0 where
  pub nickname : String
  pub bio : String
  pub avatar_url : String

abbrev pub if_changed : (new old : String) → Option String
if_changed new old = if new == old then none else some new

-- `save`: the request has the fields that differ
unfoldable pub save_profile : (form me : Profile) → Endpoint
save_profile form me =
    update_me (if_changed form.nickname me.nickname) (if_changed form.bio me.bio)
      (if_changed form.avatar_url me.avatar_url)

-- `onPickAvatar` after the upload
unfoldable pub save_avatar : (url : String) → Profile → Profile × Endpoint
save_avatar url form = (record form { avatar_url = url }, update_me none none (some url))

-- `cooldownLeft`, with times in milliseconds
unfoldable pub cooldown_left : (sent_at : Option ℕ) → (now : ℕ) → ℕ
cooldown_left none now = 0
cooldown_left (some t) now = if nat_eq t 0 then 0 else 60 - (now - t) / 1000

-- `send` of the EmailRow with its answer: whether the address was verified already, none for an error.
-- The second result says that the row tells its owner.
unfoldable pub on_verification_sent :
    (already_verified : Option Bool) → (now : ℕ) → Option ℕ → Option ℕ × Bool
on_verification_sent none now sent_at = (sent_at, false)
on_verification_sent (some true) now sent_at = (sent_at, true)
on_verification_sent (some false) now sent_at = (some now, false)

pub record EmailChange : Type 0 where
  pub new_email : String
  pub password : String
  pub submitting : Bool
  pub error : Option String

module _ (lower : String → String) where
  -- `submit` of the EmailChangeForm up to its request
  unfoldable pub submit_email : (current : String) → EmailChange → EmailChange × Option Endpoint
  submit_email current f0 =
      let f = record f0 { error = none } in
      let refuse : String → EmailChange × Option Endpoint =
        λ why. (record f { error = some why }, none) in
      let trimmed = trim f.new_email in
      if not (is_some (email_domain trimmed))
      then refuse "请输入合法的邮箱"
      else if lower trimmed == lower current
      then refuse "新邮箱不能和当前邮箱相同"
      else if is_blank f.password
      then refuse "请输入当前密码"
      else (record f { submitting = true }, some (request_email_change trimmed f.password))

pub record PasswordChange : Type 0 where
  pub current : String
  pub next : String
  pub confirm : String
  pub saving : Bool
  pub error : Option String

-- `submit` of the SecurityTab up to its request, and with the answer or the message of the error
unfoldable pub submit_password : PasswordChange → PasswordChange × Option Endpoint
submit_password f0 =
    let f = record f0 { error = none } in
    if ltb (size f.next) 8
    then (record f { error = some "新密码至少 8 位" }, none)
    else if f.next == f.confirm
    then (record f { saving = true }, some (change_password f.current f.next))
    else (record f { error = some "两次输入的新密码不一致" }, none)

unfoldable pub on_password_changed : Option (Option String) → PasswordChange → PasswordChange
on_password_changed none f = record f { current = ""; next = ""; confirm = ""; saving = false }
on_password_changed (some why) f = record f { error = some (why or_else "修改失败"); saving = false }

-- A session, by its id and whether it is the one of this device.
pub record SessionItem : Type 0 where
  pub id : String
  pub device : String
  pub is_current : Bool

-- `revoke` and `revokeOthers`, with the answer of the user
unfoldable pub revoke : (confirmed : Bool) → SessionItem → Option Endpoint
revoke confirmed s = if confirmed then some (revoke_session s.id) else none

unfoldable pub revoke_others :
    (confirmed : Bool)
    → (refresh_token : Option String) → Option (List SessionItem)
    → Option Endpoint
revoke_others confirmed refresh_token sessions =
    let others = length (keep (λ s. not s.is_current) (sessions or_else [])) in
    if nat_eq others 0 || not confirmed then none else some (revoke_other_sessions refresh_token)

-- What `doExport` and `doImport` tell the user: the number, if the channel says that it went well, the
-- message of one that throws, and nothing otherwise.
pub data Told : Type 0 where
  silent : Told
  counted : ℕ → Told
  failed : String → Told

unfoldable pub tell_transfer : (fallback : String) → Option ℕ → Told
tell_transfer fallback none = silent
tell_transfer fallback (some n) = counted n

-- `shortUserAgent`, where `has` is a test that ignores case
unfoldable pub system_of : (has : String → Bool) → String
system_of has =
    if has "mac os x"
    then "macOS"
    else if has "windows"
    then "Windows"
    else if has "linux"
    then "Linux"
    else if has "android"
    then "Android"
    else if has "iphone" || has "ipad"
    then "iOS"
    else "其它"

unfoldable pub app_of : (has : String → Bool) → String
app_of has =
    if has "electron"
    then "DFCHAT"
    else if has "edg/"
    then "Edge"
    else if has "chrome/"
    then "Chrome"
    else if has "firefox/"
    then "Firefox"
    else if has "safari/"
    then "Safari"
    else ""

module _ (lower : String → String) where
  unfoldable pub short_user_agent : String → String
  short_user_agent ua =
      let has : String → Bool = λ t. contains t (lower ua) in
      let os = system_of has in
      let app = app_of has in
      if is_blank ua then "" else if is_blank app then os else os ++ " · " ++ app
