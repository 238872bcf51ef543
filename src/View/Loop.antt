-- ===== src/View/Loop.antt =====
-- The loop of `buildRenderList` as a recursion.
use mathlib.Core.List.{append_assoc, append-nil}
use dfchat.Common.{
  ℕ, ◌+◌, String, ◌≡◌, refl, ap, sym, ◌∙◌, Bool, true, false, Option, none, some, List, [], ◌∷◌,
  ◌++◌, if◌then◌else◌, Bool-cases, inl, inr,
}
use dfchat.Types.{ChatMessage}
use dfchat.View.Render.{
  Calendar, RenderItem, date, group, Builder, last, flush, is_new_day, joins, to_day, to_group,
  build,
}

-- The open group as an item.
abbrev pub closing : ℕ → List ChatMessage → List RenderItem
closing k [] = []
closing k (m ∷ ms) = group k (m ∷ ms) ∷ []

abbrev pub next_key : ℕ → List ChatMessage → ℕ
next_key k [] = k
next_key k (m ∷ ms) = k + 1

last-cons : (x : ChatMessage) (xs : List ChatMessage) → (y : ChatMessage) × (last (x ∷ xs) ≡ some y)
last-cons x [] = (x, refl)
last-cons x (y ∷ ys) = last-cons y ys

module _ (calendar : Calendar) where
  abbrev pub joins_last : Option ChatMessage → ChatMessage → Bool
  joins_last none m = false
  joins_last (some before) m = joins calendar before m

  -- The same list by recursion, from a last date, an open group and its key.
  unfoldable pub layout : Option String → List ChatMessage → ℕ → List ChatMessage → List RenderItem
  layout day open_group k [] = closing k open_group
  layout day open_group k (m ∷ ms) =
      let other_day =
        closing k open_group
        ++ (date m.created_at ∷ layout (some m.created_at) (m ∷ []) (next_key k open_group) ms) in
      let same_group = layout day (open_group ++ m ∷ []) k ms in
      let other_group = closing k open_group ++ layout day (m ∷ []) (next_key k open_group) ms in
      if is_new_day calendar day m.created_at
      then other_day
      else (if joins_last (last open_group) m then same_group else other_group)

  abbrev builder : List RenderItem → Option String → List ChatMessage → ℕ → Builder
  builder out day cur k = record { out = out; last_date = day; current_group = cur; group_key = k }

  step : Builder → ChatMessage → Builder
  step b m = to_group calendar (to_day calendar b m) m

  to_day-new :
      (m : ChatMessage) (out : List RenderItem) (day : Option String) (cur : List ChatMessage)
      (k : ℕ)
      → is_new_day calendar day m.created_at ≡ true
      → to_day calendar (builder out day cur k) m
        ≡ builder
            ((out ++ closing k cur) ++ date m.created_at ∷ [])
            (some m.created_at)
            []
            (next_key k cur)
  unfolding flush to_day
  to_day-new m out day [] k h = rw (h, append-nil out) refl
  to_day-new m out day (x ∷ xs) k h = rw h refl

  step-new_day :
      (m : ChatMessage) (out : List RenderItem) (day : Option String) (cur : List ChatMessage)
      (k : ℕ)
      → is_new_day calendar day m.created_at ≡ true
      → step (builder out day cur k) m
        ≡ builder
            ((out ++ closing k cur) ++ date m.created_at ∷ [])
            (some m.created_at)
            (m ∷ [])
            (next_key k cur)
  unfolding step to_group
  step-new_day m out day cur k h = ap (λ b. to_group calendar b m) (to_day-new m out day cur k h)

  to_day-same :
      (m : ChatMessage) (b : Builder)
      → is_new_day calendar b.last_date m.created_at ≡ false
      → to_day calendar b m ≡ b
  unfolding to_day
  to_day-same m b h = rw h refl

  step-joined :
      (m : ChatMessage) (out : List RenderItem) (day : Option String) (cur : List ChatMessage)
      (k : ℕ)
      → is_new_day calendar day m.created_at ≡ false
      → joins_last (last cur) m ≡ true
      → step (builder out day cur k) m ≡ builder out day (cur ++ m ∷ []) k
  unfolding step to_group
  step-joined m out day [] k h j = cc
  step-joined m out day (x ∷ xs) k h j =
      let (before, ends) = last-cons x xs in
      let joined : joins calendar before m ≡ true = ap (λ l. joins_last l m) (sym ends) ∙ j in
      ap (λ b. to_group calendar b m) (to_day-same m (builder out day (x ∷ xs) k) h)
      ∙ rw (ends, joined) refl

  step-apart :
      (m : ChatMessage) (out : List RenderItem) (day : Option String) (cur : List ChatMessage)
      (k : ℕ)
      → is_new_day calendar day m.created_at ≡ false
      → joins_last (last cur) m ≡ false
      → step (builder out day cur k) m
        ≡ builder (out ++ closing k cur) day (m ∷ []) (next_key k cur)
  unfolding step to_group flush
  step-apart m out day [] k h j =
      ap (λ b. to_group calendar b m) (to_day-same m (builder out day [] k) h)
      ∙ rw (append-nil out) refl
  step-apart m out day (x ∷ xs) k h j =
      let (before, ends) = last-cons x xs in
      let apart : joins calendar before m ≡ false = ap (λ l. joins_last l m) (sym ends) ∙ j in
      ap (λ b. to_group calendar b m) (to_day-same m (builder out day (x ∷ xs) k) h)
      ∙ rw (ends, apart) refl

  -- The loop appends that list to what it has.
  pub out-build :
      (ms : List ChatMessage) (out : List RenderItem) (day : Option String) (cur : List ChatMessage)
      (k : ℕ)
      → (build calendar (builder out day cur k) ms).out ≡ out ++ layout day cur k ms
  unfolding build layout step flush
  out-build [] out day [] k = sym (append-nil out)
  out-build [] out day (x ∷ xs) k = refl
  out-build (m ∷ ms) out day cur k =
      let after = λ (b : Builder). (build calendar b ms).out in
      elim (Bool-cases (is_new_day calendar day m.created_at)) [
        | inl other_day ↦
            ap after (step-new_day m out day cur k other_day)
            ∙ out-build ms ((out ++ closing k cur) ++ date m.created_at ∷ []) (some m.created_at)
                (m ∷ []) (next_key k cur)
            ∙ rw other_day (simp append_assoc)
        | inr same ↦ elim (Bool-cases (joins_last (last cur) m)) [
          | inl joined ↦
              ap after (step-joined m out day cur k same joined)
              ∙ out-build ms out day (cur ++ m ∷ []) k
              ∙ rw (same, joined) refl
          | inr apart ↦
              ap after (step-apart m out day cur k same apart)
              ∙ out-build ms (out ++ closing k cur) day (m ∷ []) (next_key k cur)
              ∙ rw (same, apart) (simp append_assoc)
        ]
      ]
