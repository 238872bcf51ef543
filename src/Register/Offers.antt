-- ===== src/Register/Offers.antt =====
-- client/src/pages/Register.tsx: the number of a registration was offered under its token.
use dfchat.Common.{
  String, Bool, true, false, ◌≡◌, refl, sym, ap, ◌∙◌, ◌or_else◌, Option, none, some, List, [], ◌∷◌,
  ◌⊎◌, inl, inr, arith,
}
use mathlib.Core.Path.{subst}
use dfchat.Register.Flow.{
  Registration, Draw, on_drawn, start_refresh, on_refreshed_numbers, on_first_draw, proceed_to_pick,
  confirm_register, Payload, payload, on_registered, form_step_ok, can_submit,
}
use dfchat.Register.Requests.{
  World, new_world, offers, refresh_offers, IsIn, Step, edits, submits, first_drawn, drawn,
  refreshes, refreshed, picks, returns, confirms, registered, IsTimely, send_request, Reach, here,
  next, AllTimely,
}

-- The server has offered the number under the token.
abbrev pub IsOffered : List (String × List String) → String → String → Type 0
IsOffered [] token n = ⊥
IsOffered (o ∷ os) token n = ((o.0 ≡ token) × IsIn n o.1) ⊎ IsOffered os token n

abbrev AreOffered : List (String × List String) → String → List String → Type 0
AreOffered os token ns = (n : String) → IsIn n ns → IsOffered os token n

-- A picked number is offered.
abbrev PickIsOffered : List (String × List String) → Registration → Type 0
PickIsOffered os r = (n : String) → r.picked_no ≡ some n → IsOffered os r.selection_token n

-- A page whose form passes the rules and whose number is offered under its token makes this request.
abbrev pub IsFounded : (String → String) → List (String × List String) → Payload → Type 0
IsFounded lower os p =
    (r : Registration) × (n : String) × (p ≡ payload n r)
    × (form_step_ok lower r.fields ≡ true)
    × IsOffered os r.selection_token n

abbrev pub AreFounded : (String → String) → List (String × List String) → List Payload → Type 0
AreFounded lower os [] = Unit
AreFounded lower os (p ∷ ps) = IsFounded lower os p × AreFounded lower os ps

AreFounded-later :
    (lower : String → String) (o : String × List String) (os : List (String × List String))
    (ps : List Payload)
    → AreFounded lower os ps
    → AreFounded lower (o ∷ os) ps
AreFounded-later lower o os [] h = tt
AreFounded-later lower o os (p ∷ ps) (h, hs) =
    ((h.0, h.1, h.2, h.3, inr h.4), AreFounded-later lower o os ps hs)

record IsSound (lower : String → String) (w : World) : Type 0 where
  shown : AreOffered w.offered w.page.selection_token w.page.numbers
  picked : PickIsOffered w.offered w.page
  founded : AreFounded lower w.offered w.sent

-- The shown numbers, the token and the pick are those of before.
abbrev IsSameOffer : Registration → Registration → Type 0
IsSameOffer r v =
    (v.numbers ≡ r.numbers) × (v.selection_token ≡ r.selection_token) × (v.picked_no ≡ r.picked_no)

module _ (lower : String → String) where
  record-page-IsSound :
      (w : World) (v : Registration)
      → IsSameOffer w.page v
      → IsSound lower w
      → IsSound lower (record w { page = v })
  record-page-IsSound w v same h = record {
    shown = λ n m. rw same.1 (h.shown n (subst (IsIn n) same.0 m));
    picked = λ n e. rw same.1 (h.picked n (sym same.2 ∙ e));
    founded = h.founded;
  }

  on_drawn-IsSound :
      (w : World) (answer : Draw ⊎ Option String) (v : Registration)
      → IsSameOffer (on_drawn answer w.page) v
      → IsSound lower w
      → IsSound lower (record w { page = v; offered = offers answer w.offered })
  unfolding on_drawn
  on_drawn-IsSound w (inl d) v same h = record {
    shown = λ n m. inl (sym same.1, subst (IsIn n) same.0 m);
    picked = λ n e. absurd (cc (same.2, e));
    founded = AreFounded-later lower (d.selection_token, d.numbers) w.offered w.sent h.founded;
  }
  on_drawn-IsSound w (inr why) v same h = record-page-IsSound w v same h

  on_refreshed_numbers-IsSound :
      (w : World) (token : String) (answer : Draw ⊎ Option String)
      → w.page.selection_token ≡ token
      → IsSound lower w
      → IsSound lower (record w {
        page = on_refreshed_numbers answer w.page;
        offered = refresh_offers token answer w.offered;
      })
  unfolding on_refreshed_numbers
  on_refreshed_numbers-IsSound w token (inl d) timely h = record {
    shown = λ n m. inl (sym timely, m);
    picked = λ n e. absurd (cc e);
    founded = AreFounded-later lower (token, d.numbers) w.offered w.sent h.founded;
  }
  on_refreshed_numbers-IsSound w token (inr why) timely h =
      record-page-IsSound w _ (refl, refl, refl) h

  send_request-IsSound :
      (w : World) (v : Registration) (picked_no : Option String) (asks : Bool)
      → IsSameOffer w.page v
      → w.page.picked_no ≡ picked_no
      → (asks ≡ true → form_step_ok lower v.fields ≡ true)
      → IsSound lower w
      → IsSound lower (send_request v picked_no asks w)
  unfolding send_request
  send_request-IsSound w v none asks same q ok h = record-page-IsSound w v same h
  send_request-IsSound w v (some n) false same q ok h = record-page-IsSound w v same h
  send_request-IsSound w v (some n) true same q ok h =
      let kept = record-page-IsSound w v same h in
      record {
        shown = kept.shown;
        picked = kept.picked;
        founded = ((v, n, refl, ok refl, rw same.1 (h.picked n q)), h.founded);
      }

  confirm_register-IsSame :
      (r : Registration)
      → IsSameOffer r (confirm_register lower r).0
        × ((confirm_register lower r).1 ≡ true
            → form_step_ok lower (confirm_register lower r).0.fields ≡ true)
  unfolding confirm_register can_submit
  confirm_register-IsSame r = ground arith

  proceed_to_pick-IsSame : (r : Registration) → IsSameOffer r (proceed_to_pick lower r).0
  unfolding proceed_to_pick
  proceed_to_pick-IsSame r = ground arith

  start_refresh-IsSame : (r : Registration) → IsSameOffer r (start_refresh r).0
  unfolding start_refresh
  start_refresh-IsSame r = ground arith

  on_registered-IsSame :
      (r : Registration) (answer : Bool ⊎ Option String) → IsSameOffer r (on_registered answer r).0
  unfolding on_registered
  on_registered-IsSame r (inl logged_in) = (refl, refl, refl)
  on_registered-IsSame r (inr none) = (refl, refl, refl)
  on_registered-IsSame r (inr (some why)) = ground arith

  Step-IsSound :
      {w v : World} (s : Step lower w v) → IsTimely lower s → IsSound lower w → IsSound lower v
  unfolding on_first_draw
  Step-IsSound (edits w f on) t h = record-page-IsSound w _ (refl, refl, refl) h
  Step-IsSound (submits w on idle) t h = record-page-IsSound w _ (proceed_to_pick-IsSame w.page) h
  Step-IsSound (first_drawn w answer) t h = on_drawn-IsSound w answer _ (refl, refl, refl) h
  Step-IsSound (drawn w answer) t h = on_drawn-IsSound w answer _ (refl, refl, refl) h
  Step-IsSound (refreshes w on idle) t h = record-page-IsSound w _ (start_refresh-IsSame w.page) h
  Step-IsSound (refreshed w token answer) t h = on_refreshed_numbers-IsSound w token answer t h
  Step-IsSound (picks w n on idle m) t h = record {
    shown = h.shown;
    picked = λ k e. h.shown k (subst (λ x. IsIn x w.page.numbers) (ap (λ o. o or_else n) e) m);
    founded = h.founded;
  }
  Step-IsSound (returns w on idle) t h = record-page-IsSound w _ (refl, refl, refl) h
  Step-IsSound (confirms w on) t h =
      let same = confirm_register-IsSame w.page in
      send_request-IsSound w (confirm_register lower w.page).0 w.page.picked_no
        (confirm_register lower w.page).1 same.0 refl same.1 h
  Step-IsSound (registered w answer) t h =
      record-page-IsSound w _ (on_registered-IsSame w.page answer) h

  Reach-IsSound :
      {w v : World} (r : Reach lower w v) → AllTimely lower r → IsSound lower w → IsSound lower v
  Reach-IsSound here t h = h
  Reach-IsSound (next r s) (t, timely) h = Step-IsSound s timely (Reach-IsSound r t h)

  new_world-IsSound : IsSound lower new_world
  new_world-IsSound = record {
    shown = λ n m. absurd m;
    picked = λ n e. absurd (cc e);
    founded = tt;
  }

  -- Whatever the user does and however the server answers, as long as no refresh is answered after
  -- another draw has changed the token: each registration that is sent is the request of a page whose
  -- form passes all rules, with a number that the server offered under the token that is sent.
  pub Reach-AreFounded :
      {v : World} (r : Reach lower new_world v)
      → AllTimely lower r
      → AreFounded lower v.offered v.sent
  Reach-AreFounded r timely = (Reach-IsSound r timely new_world-IsSound).founded
