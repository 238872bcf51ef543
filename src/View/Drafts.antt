-- ===== src/View/Drafts.antt =====
-- Sequences of what the user does in client/src/components/ChatView.tsx and of answers of the server.
use mathlib.Core.List.{append_assoc}
use dfchat.Common.{
  ap, ◌≡◌, refl, ◌∙◌, ℕ, String, Bool, true, false, Option, none, some, List, [], ◌∷◌, ◌++◌, arith,
  ◌==◌, push, all, Bool-cases, inl, inr,
}
use dfchat.Common.Dict.{Dict}
use dfchat.Types.{ChatMessage}
use dfchat.Chat.{ParseDate}
use dfchat.View.Opening.{Context}
use dfchat.View.Text.{trim, extract_mentions}
use dfchat.View.Compose.{
  Answer, given, failed, Composer, File, Uploaded, text_request, reply_id, send_text, on_sent,
  upload, on_uploaded, on_rich_sent, recall, delete, start_edit, cancel_edit, save_edit, pin, unpin,
  toggle_reaction, on_recalled, on_deleted, on_edited, current_text,
}

-- The calls of the handlers, and the settings of one variable that the view makes: a change of the
-- text field or of an open edit, and the choice of a message to reply to, or of none.
pub data Action : Type 0 where
  type_text type_edit : String → Action
  reply : Option ChatMessage → Action
  press_send : Option Context → Action
  sent rich_sent recalled edited : Answer ChatMessage → Action
  choose_file : Option Context → File → Action
  uploaded : Context → File → Option String → Answer Uploaded → Action
  click_recall click_edit click_save click_pin : ChatMessage → Action
  click_delete : (confirmed : Bool) → ChatMessage → Action
  deleted : ChatMessage → Answer (Unit {0}) → Action
  leave_edit : Action
  click_unpin : (id : String) → Action
  click_reaction : Option ℕ → ChatMessage → (emoji : String) → Action

-- Whether the action is no click on a reaction and, where it is an answer, an error.
abbrev is_failure : {A : Type 0} → Answer A → Bool
is_failure (given a) = false
is_failure (failed why) = true

abbrev pub fails : Action → Bool
fails (sent a) = is_failure a
fails (rich_sent a) = is_failure a
fails (recalled a) = is_failure a
fails (edited a) = is_failure a
fails (uploaded ctx file reply_to a) = is_failure a
fails (deleted m a) = is_failure a
fails (click_reaction me m emoji) = false
fails _ = true

-- the text field after the action, where only the keys count
abbrev typed : Action → String → String
typed (type_text t) old = t
typed _ old = old

abbrev pub last_typed : List Action → String → String
last_typed [] old = old
last_typed (a ∷ acts) old = last_typed acts (typed a old)

module _ (lower : String → String) (ids : Dict String) (d : ParseDate) (now : ℕ) where
  abbrev pub step : Action → Composer → Composer
  step (type_text t) c = record c { draft = t }
  step (type_edit t) c = record c { editing_draft = t }
  step (reply m) c = record c { replying_to = m }
  step (press_send ctx) c = send_text lower ids ctx c
  step (sent a) c = on_sent a c
  step (rich_sent a) c = on_rich_sent a c
  step (recalled a) c = on_recalled d now a c
  step (edited a) c = on_edited d now a c
  step (choose_file ctx file) c = upload ctx file c
  step (uploaded ctx file reply_to a) c = on_uploaded ctx file reply_to a c
  step (click_recall m) c = recall m c
  step (click_edit m) c = start_edit m c
  step (click_save m) c = save_edit m c
  step (click_pin m) c = pin m c
  step (click_delete confirmed m) c = delete confirmed m c
  step (deleted m a) c = on_deleted d now m a c
  step leave_edit c = cancel_edit c
  step (click_unpin id) c = unpin id c
  step (click_reaction me m emoji) c = toggle_reaction me m emoji c

  abbrev pub run : List Action → Composer → Composer
  run [] c = c
  run (a ∷ acts) c = run acts (step a c)

  step_failed :
      (a : Action) (c : Composer)
      → fails a ≡ true
      → ((step a c).client ≡ c.client) × ((step a c).draft ≡ typed a c.draft)
  unfolding send_text on_sent on_rich_sent on_recalled on_edited upload on_uploaded recall
      start_edit save_edit pin delete on_deleted cancel_edit unpin
  step_failed (type_text t) c h = (refl, refl)
  step_failed (type_edit t) c h = (refl, refl)
  step_failed (reply m) c h = (refl, refl)
  step_failed (press_send none) c h = (refl, refl)
  step_failed (press_send (some ctx)) c h = elim (Bool-cases (trim c.draft == "")) [
    | inl e ↦ rw e (refl, refl)
    | inr e ↦ rw e (refl, refl)
  ]
  step_failed (sent (failed why)) c h = (refl, refl)
  step_failed (rich_sent (failed why)) c h = (refl, refl)
  step_failed (recalled (failed why)) c h = (refl, refl)
  step_failed (edited (failed why)) c h = (refl, refl)
  step_failed (choose_file none file) c h = (refl, refl)
  step_failed (choose_file (some ctx) file) c h = (refl, refl)
  step_failed (uploaded ctx file reply_to (failed why)) c h = (refl, refl)
  step_failed (click_recall m) c h = (refl, refl)
  step_failed (click_edit m) c h = (refl, refl)
  step_failed (click_save m) c h = elim (Bool-cases (trim c.editing_draft == "")) [
    | inl e ↦ rw e (refl, refl)
    | inr e ↦ elim (Bool-cases (trim c.editing_draft == trim (current_text m))) [
      | inl same ↦ rw (e, same) (refl, refl)
      | inr other ↦ rw (e, other) (refl, refl)
    ]
  ]
  step_failed (click_pin m) c h = (refl, refl)
  step_failed (click_delete true m) c h = (refl, refl)
  step_failed (click_delete false m) c h = (refl, refl)
  step_failed (deleted m (failed why)) c h = (refl, refl)
  step_failed leave_edit c h = (refl, refl)
  step_failed (click_unpin id) c h = (refl, refl)
  step_failed (sent (given m)) c h = cc
  step_failed (rich_sent (given m)) c h = cc
  step_failed (recalled (given m)) c h = cc
  step_failed (edited (given m)) c h = cc
  step_failed (uploaded ctx file reply_to (given u)) c h = cc
  step_failed (deleted m (given u)) c h = cc
  step_failed (click_reaction me m emoji) c h = cc

  -- Over any actions of which none is a click on a reaction and whose every answer is an error, the
  -- stores stay as they were, and the text field holds what was typed last.
  pub run-failed :
      (acts : List Action) (c : Composer)
      → all fails acts ≡ true
      → ((run acts c).client ≡ c.client) × ((run acts c).draft ≡ last_typed acts c.draft)
  run-failed [] c h = (refl, refl)
  run-failed (a ∷ acts) c h =
      let (kept, text) = step_failed a c (ground (arith, h)) in
      let (rest, last) = run-failed acts (step a c) (ground (arith, h)) in
      (rest ∙ kept, rw⁻¹ text last)

  pressed : Context → Composer → Composer
  pressed ctx c = record c {
    error = none;
    sending = true;
    requests =
        push c.requests
          (text_request ctx.place (trim c.draft) (extract_mentions lower ids c.draft) (reply_id c));
  }

  send_text_filled :
      (ctx : Context) (c : Composer)
      → (trim c.draft == "") ≡ false
      → send_text lower ids (some ctx) c ≡ pressed ctx c
  unfolding send_text pressed
  send_text_filled ctx c filled = rw filled refl

  -- Where there is a conversation and the text field is not blank, a second Enter before the answer
  -- to the first makes the same request again, and the answer to a request clears what was typed after
  -- it.
  pub run_while_sending :
      (ctx : Context) (c : Composer) (t : String) (m : ChatMessage)
      → (trim c.draft == "") ≡ false
      → let r =
          text_request ctx.place (trim c.draft) (extract_mentions lower ids c.draft) (reply_id c) in
        let enter = press_send (some ctx) in
        ((run (enter ∷ enter ∷ []) c).requests ≡ c.requests ++ r ∷ r ∷ [])
        × ((run (enter ∷ type_text t ∷ sent (given m) ∷ []) c).draft ≡ "")
  unfolding pressed on_sent
  run_while_sending ctx c t m filled =
      let once = send_text_filled ctx c filled in
      let twice =
        ap (send_text lower ids (some ctx)) once ∙ send_text_filled ctx (pressed ctx c) filled in
      (ap (λ p. p.requests) twice ∙ simp append_assoc, refl)
