-- ===== src/Tests/Accounts.antt =====
-- Forms of client/src/pages/Register.tsx.
use dfchat.Common.{String, ◌≡◌, refl, true, false, none, some, [], ◌∷◌, inr}
use dfchat.View.Text.{trim_start, trim_end}
use dfchat.Markdown.Inline.{strip, run_of, after_run}
use dfchat.Register.{check_password, classes, check_email, email_domain, dot_inside, strength}
use dfchat.Register.Flow.{
  Registration, form, pick, form_step_ok, proceed_to_pick, on_drawn, on_first_draw,
}

abbrev same_case : String → String
same_case s = s

rules_of_passwords :
    (check_password same_case "dfchat123" ≡ true ∷ true ∷ true ∷ false ∷ [])
    × (check_password same_case "aaaaaaaa" ≡ true ∷ false ∷ false ∷ true ∷ [])
    × (strength "correct-horse-9-staple" ≡ 4)
unfolding check_password classes strength
rules_of_passwords = (refl, refl, refl)

rules_of_addresses :
    (check_email same_case " ann@example.net " ≡ (false, some "不接受一次性邮箱，请用真实邮箱"))
    × (check_email same_case "ann@dfchat.chat" ≡ (true, none))
    × (check_email same_case "ann@chat." ≡ (false, some "邮箱格式不正确"))
unfolding check_email email_domain dot_inside trim_start trim_end strip run_of after_run
rules_of_addresses = (refl, refl, refl)

abbrev filled : Registration
filled = record {
  page = form;
  numbers = [];
  selection_token = "";
  refreshes_left = 0;
  picked_no = none;
  drawing = false;
  draw_error = none;
  fields = record {
    username = "ann_9";
    email = "ann@dfchat.chat";
    password = "tulips-42";
    confirm_password = "tulips-42";
    nickname = "";
    website = "";
  };
  error = none;
  loading = false;
  all_touched = false;
  account = none;
}

-- A draw that fails still leads to the page of the numbers.
draw_that_fails :
    ((proceed_to_pick same_case filled).1 ≡ true)
    × ((on_first_draw (inr none) (proceed_to_pick same_case filled).0).page ≡ pick)
unfolding proceed_to_pick form_step_ok on_first_draw on_drawn check_email email_domain dot_inside
    check_password classes trim_start trim_end strip run_of after_run
draw_that_fails = (refl, refl)
