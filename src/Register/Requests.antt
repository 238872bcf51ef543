-- ===== src/Register/Requests.antt =====
-- client/src/pages/Register.tsx: the page as the user and the server move it. A button works on its
-- page and while it is not disabled; an answer may come at any time.
use dfchat.Common.{String, Bool, true, false, ◌≡◌, Option, none, some, List, [], ◌∷◌, ◌⊎◌, inl, inr}
use dfchat.Register.Flow.{
  form, pick, Form, Registration, Draw, on_drawn, start_refresh, on_refreshed_numbers,
  on_first_draw, proceed_to_pick, confirm_register, Payload, payload, on_registered,
}

-- The page, the numbers that the server has offered under each token, the latest first, and the
-- registrations that were sent.
pub record World : Type 0 where
  pub page : Registration
  pub offered : List (String × List String)
  pub sent : List Payload

abbrev pub new_world : World
new_world = record {
  page = record {
    page = form;
    numbers = [];
    selection_token = "";
    refreshes_left = 0;
    picked_no = none;
    drawing = false;
    draw_error = none;
    fields = record {
      username = "";
      email = "";
      password = "";
      confirm_password = "";
      nickname = "";
      website = "";
    };
    error = none;
    loading = false;
    all_touched = false;
    account = none;
  };
  offered = [];
  sent = [];
}

-- what an answer to a draw offers
abbrev pub offers : Draw ⊎ Option String → List (String × List String) → List (String × List String)
offers (inl d) os = (d.selection_token, d.numbers) ∷ os
offers (inr why) os = os

-- and one to a refresh, under the token that it was made with
abbrev pub refresh_offers :
    String → Draw ⊎ Option String → List (String × List String) → List (String × List String)
refresh_offers token (inl d) os = (token, d.numbers) ∷ os
refresh_offers token (inr why) os = os

-- a click on a number that is shown
abbrev pub pick_no : String → Registration → Registration
pick_no n r = record r { picked_no = some n }

abbrev pub IsIn : String → List String → Type 0
IsIn n [] = ⊥
IsIn n (m ∷ ms) = (m ≡ n) ⊎ IsIn n ms

-- what `confirmRegister` sends from the page and the number that it read, if it asks the server
unfoldable pub send_request :
    (page : Registration) (picked_no : Option String) → Bool → World → World
send_request page (some n) true w = record w { page = page; sent = payload n page ∷ w.sent }
send_request page (some n) false w = record w { page = page }
send_request page none asks w = record w { page = page }

module _ (lower : String → String) where
  abbrev pub confirmed : World → World
  confirmed w = let r = confirm_register lower w.page in send_request r.0 w.page.picked_no r.1 w

  pub data Step : World → World → Type 0 where
    edits :
        (w : World) (f : Form)
        → w.page.page ≡ form
        → Step w (record w { page = record w.page { fields = f } })
    submits :
        (w : World)
        → w.page.page ≡ form
        → w.page.loading ≡ false
        → Step w (record w { page = (proceed_to_pick lower w.page).0 })
    first_drawn :
        (w : World) (answer : Draw ⊎ Option String)
        → Step w
            (record w { page = on_first_draw answer w.page; offered = offers answer w.offered })
    drawn :
        (w : World) (answer : Draw ⊎ Option String)
        → Step w (record w { page = on_drawn answer w.page; offered = offers answer w.offered })
    refreshes :
        (w : World)
        → w.page.page ≡ pick
        → w.page.drawing ≡ false
        → Step w (record w { page = (start_refresh w.page).0 })
    refreshed :
        (w : World) (token : String) (answer : Draw ⊎ Option String)
        → Step w (record w {
          page = on_refreshed_numbers answer w.page;
          offered = refresh_offers token answer w.offered;
        })
    picks :
        (w : World) (n : String)
        → w.page.page ≡ pick
        → w.page.drawing ≡ false
        → IsIn n w.page.numbers
        → Step w (record w { page = pick_no n w.page })
    returns :
        (w : World)
        → w.page.page ≡ pick
        → w.page.loading ≡ false
        → Step w (record w { page = record w.page { page = form } })
    confirms : (w : World) → w.page.page ≡ pick → Step w (confirmed w)
    registered :
        (w : World) (answer : Bool ⊎ Option String)
        → Step w (record w { page = (on_registered answer w.page).0 })

  -- A refresh is answered while the token that it was made with is the one of the page.
  abbrev pub IsTimely : {w v : World} → Step w v → Type 0
  IsTimely (refreshed w token answer) = w.page.selection_token ≡ token
  IsTimely _ = Unit

  pub data Reach (w : World) : World → Type 0 where
    here : Reach w w
    next : {u v : World} → Reach w u → Step u v → Reach w v

  abbrev pub AllTimely : {w v : World} → Reach w v → Type 0
  AllTimely here = Unit
  AllTimely (next r s) = AllTimely r × IsTimely s
