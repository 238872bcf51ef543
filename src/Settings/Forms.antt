-- ===== src/Settings/Forms.antt =====
-- client/src/pages/Settings.tsx: the requests of the forms.
use dfchat.Common.{String, true, false, some, ◌≡◌, arith, ltb, ◌==◌, is_some}
use dfchat.View.Text.{trim}
use dfchat.Markdown.Inline.{is_blank}
use dfchat.Register.{size, email_domain}
use dfchat.Api.{Endpoint}
use dfchat.Api.Accounts.{change_password, request_email_change}
use dfchat.Settings.{EmailChange, submit_email, PasswordChange, submit_password}

-- A change of the address is asked for only with an address that passes the test, that differs from the
-- current one in more than case, and with a password.
submit_email-sends :
    (lower : String → String) (current : String) (f : EmailChange) (e : Endpoint)
    → (submit_email lower current f).1 ≡ some e
    → (is_some (email_domain (trim f.new_email)) ≡ true)
      × ((lower (trim f.new_email) == lower current) ≡ false)
      × (is_blank f.password ≡ false)
      × (e ≡ request_email_change (trim f.new_email) f.password)
unfolding submit_email
submit_email-sends lower current f e h = ground (arith, h)

-- A change of the password only with eight characters that were typed twice alike.
submit_password-sends :
    (f : PasswordChange) (e : Endpoint)
    → (submit_password f).1 ≡ some e
    → (ltb (size f.next) 8 ≡ false)
      × ((f.next == f.confirm) ≡ true)
      × (e ≡ change_password f.current f.next)
unfolding submit_password
submit_password-sends f e h = ground (arith, h)
