-- ===== src/Tests/Registrations.antt =====
-- A registration from the empty form to the request, and a refresh that is answered too late.
use dfchat.Common.{String, ◌≡◌, refl, true, some, [], ◌∷◌, inl, inr}
use dfchat.View.Text.{trim_start, trim_end}
use dfchat.Markdown.Inline.{strip, run_of, after_run}
use dfchat.Register.{check_password, classes, check_email, email_domain, dot_inside}
use dfchat.Register.Flow.{
  Form, Draw, Registration, pick, form_step_ok, can_submit, proceed_to_pick, confirm_register,
  payload, on_drawn, on_first_draw, on_registered, start_refresh, on_refreshed_numbers,
}
use dfchat.Register.Requests.{
  new_world, send_request, here, next, edits, submits, first_drawn, picks, confirms,
}
use dfchat.Register.Offers
use dfchat.Register.Offers.{AreFounded}

abbrev same_letters : String → String
same_letters s = s

abbrev of_ann : Form
of_ann = record {
  username = "ann_9";
  email = "ann@dfchat.chat";
  password = "tulips-42";
  confirm_password = "tulips-42";
  nickname = "";
  website = "";
}

abbrev first_offer : Draw
first_offer = record { numbers = "1001" ∷ "1002" ∷ []; selection_token = "t"; refreshes_left = 3 }

Reach-AreFounded_example :
    AreFounded same_letters
      (("t", "1001" ∷ "1002" ∷ []) ∷ [])
      (("ann_9" ∷ "ann@dfchat.chat" ∷ "tulips-42" ∷ "ann_9" ∷ "1002" ∷ "t" ∷ "" ∷ []) ∷ [])
unfolding form_step_ok can_submit proceed_to_pick confirm_register payload on_drawn on_first_draw
    send_request check_email email_domain dot_inside check_password classes trim_start trim_end
    strip run_of after_run
Reach-AreFounded_example =
    Offers.Reach-AreFounded same_letters
      (next
        (next
          (next (next (next here (edits new_world of_ann refl)) (submits _ refl refl))
            (first_drawn _ (inl first_offer)))
          (picks _ "1002" refl refl (inr (inl refl))))
        (confirms _ refl))
      (((((tt, tt), tt), tt), tt), tt)

abbrev picking : Registration
picking = record (on_drawn (inl first_offer) new_world.page) {
  page = pick;
  fields = of_ann;
  picked_no = some "1002";
}

abbrev refreshing : Registration
refreshing = (start_refresh picking).0

abbrev redrawing : Registration
redrawing = (on_registered (inr (some "账号已被占用")) (confirm_register same_letters refreshing).0).0

-- A registration is sent while a refresh waits; its error draws again, and the answer to the refresh
-- comes after that to the draw.
late_refresh :
    let drawn = on_drawn (inl (record first_offer { selection_token = "u" })) redrawing in
    let mixed = on_refreshed_numbers (inl (record first_offer { numbers = "1003" ∷ [] })) drawn in
    ((confirm_register same_letters refreshing).1 ≡ true)
    × (mixed.selection_token ≡ "u")
    × (mixed.numbers ≡ "1003" ∷ [])
unfolding form_step_ok can_submit confirm_register on_drawn start_refresh on_refreshed_numbers
    on_registered check_email email_domain dot_inside check_password classes trim_start trim_end
    strip run_of after_run
late_refresh = (refl, refl, refl)
