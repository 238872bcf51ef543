-- ===== src/View/Layout.antt =====
-- What `buildRenderList` of client/src/components/ChatView.tsx lays out.
use mathlib.Core.List.{append_assoc}
use dfchat.Common.{
  ◌==◌, ◌||◌, eq_refl, ℕ, ◌+◌, String, ◌≡◌, refl, ap, ◌∙◌, Bool, true, false, Option, none, some,
  List, [], ◌∷◌, ◌++◌, arith, Bool-cases, inl, inr,
}
use dfchat.Types.{ChatMessage}
use dfchat.View.Render.{
  Calendar, RenderItem, date, group, last, is_same_day, is_new_day, joins, build_render_list,
}
use dfchat.View.Loop.{closing, layout, joins_last, out-build}

-- The messages of the groups, in their order.
unfoldable pub messages_of : List RenderItem → List ChatMessage
messages_of [] = []
messages_of (date d ∷ items) = messages_of items
messages_of (group k ms ∷ items) = ms ++ messages_of items

module _ (calendar : Calendar) where
  messages_of-closing :
      (k : ℕ) (cur : List ChatMessage) (items : List RenderItem)
      → messages_of (closing k cur ++ items) ≡ cur ++ messages_of items
  unfolding messages_of
  messages_of-closing k [] items = refl
  messages_of-closing k (x ∷ xs) items = refl

  messages_of-layout :
      (ms : List ChatMessage) (day : Option String) (cur : List ChatMessage) (k : ℕ)
      → messages_of (layout calendar day cur k ms) ≡ cur ++ ms
  unfolding layout messages_of
  messages_of-layout [] day [] k = refl
  messages_of-layout [] day (x ∷ xs) k = refl
  messages_of-layout (m ∷ ms) day cur k = elim (Bool-cases (is_new_day calendar day m.created_at)) [
    | inl other_day ↦
        rw
          (other_day, messages_of-closing k cur, messages_of-layout ms (some m.created_at) (m ∷ []))
          refl
    | inr same ↦ elim (Bool-cases (joins_last calendar (last cur) m)) [
      | inl joined ↦
          rw (same, joined) (messages_of-layout ms day (cur ++ m ∷ []) k ∙ simp append_assoc)
      | inr apart ↦
          rw (same, apart, messages_of-closing k cur, messages_of-layout ms day (m ∷ [])) refl
    ]
  ]

  -- The message is of the day that was set by the text, or is the one that set it.
  abbrev pub on_day : Option String → ChatMessage → Bool
  on_day none m = false
  on_day (some d) m = (d == m.created_at) || is_same_day calendar d m.created_at

  abbrev pub AllOnDay : Option String → List ChatMessage → Type 0
  AllOnDay day [] = Unit {0}
  AllOnDay day (m ∷ ms) = (on_day day m ≡ true) × AllOnDay day ms

  -- Each message goes to the group of the one before it.
  abbrev pub IsChain : List ChatMessage → Type 0
  IsChain [] = Unit {0}
  IsChain (m ∷ []) = Unit {0}
  IsChain (m ∷ n ∷ ms) = (joins calendar m n ≡ true) × IsChain (n ∷ ms)

  -- The first item is a group whose first message is of the time.
  abbrev pub Opens : String → List RenderItem → Type 0
  Opens d (group j (m ∷ ms) ∷ items) = d ≡ m.created_at
  Opens d _ = ⊥

  -- As the loop tests it, from a key, the last date, and the last message since that date.
  abbrev pub IsBuilt : ℕ → Option String → Option ChatMessage → List RenderItem → Type 0
  IsBuilt k day prev [] = Unit {0}
  IsBuilt k day prev (date d ∷ items) =
      (is_new_day calendar day d ≡ true) × Opens d items × IsBuilt k (some d) none items
  IsBuilt k day prev (group j [] ∷ items) = ⊥
  IsBuilt k day prev (group j (m ∷ ms) ∷ items) =
      (j ≡ k)
      × (joins_last calendar prev m ≡ false)
      × AllOnDay day (m ∷ ms)
      × IsChain (m ∷ ms)
      × IsBuilt (k + 1) day (last (m ∷ ms)) items

  layout-Opens :
      (ms : List ChatMessage) (day : Option String) (x : ChatMessage) (xs : List ChatMessage)
      (k : ℕ)
      → Opens x.created_at (layout calendar day (x ∷ xs) k ms)
  unfolding layout
  layout-Opens [] day x xs k = refl
  layout-Opens (m ∷ ms) day x xs k = elim (Bool-cases (is_new_day calendar day m.created_at)) [
    | inl other_day ↦ rw other_day refl
    | inr same ↦ elim (Bool-cases (joins_last calendar (last (x ∷ xs)) m)) [
      | inl joined ↦ rw (same, joined) (layout-Opens ms day x (xs ++ m ∷ []) k)
      | inr apart ↦ rw (same, apart) refl
    ]
  ]

  AllOnDay-snoc :
      (day : Option String) (ms : List ChatMessage) (m : ChatMessage)
      → AllOnDay day ms
      → on_day day m ≡ true
      → AllOnDay day (ms ++ m ∷ [])
  AllOnDay-snoc day [] m h e = (e, tt)
  AllOnDay-snoc day (x ∷ xs) m (e', h) e = (e', AllOnDay-snoc day xs m h e)

  IsChain-snoc :
      (x : ChatMessage) (xs : List ChatMessage) (m : ChatMessage)
      → IsChain (x ∷ xs)
      → joins_last calendar (last (x ∷ xs)) m ≡ true
      → IsChain (x ∷ (xs ++ m ∷ []))
  IsChain-snoc x [] m h e = (e, tt)
  IsChain-snoc x (y ∷ ys) m (e', h) e = (e', IsChain-snoc y ys m h e)

  on_day_same :
      (day : Option String) (m : ChatMessage)
      → is_new_day calendar day m.created_at ≡ false
      → on_day day m ≡ true
  on_day_same none m h = cc
  on_day_same (some d) m h = ground arith

  on_day_self : (m : ChatMessage) → on_day (some m.created_at) m ≡ true
  on_day_self m = ground (arith, eq_refl m.created_at)

  layout-IsBuilt :
      (ms : List ChatMessage) (day : Option String) (x : ChatMessage) (xs : List ChatMessage)
      (k : ℕ) (prev : Option ChatMessage)
      → joins_last calendar prev x ≡ false
      → AllOnDay day (x ∷ xs)
      → IsChain (x ∷ xs)
      → IsBuilt k day prev (layout calendar day (x ∷ xs) k ms)
  unfolding layout
  layout-IsBuilt [] day x xs k prev apart dated chain = (refl, apart, dated, chain, tt)
  layout-IsBuilt (m ∷ ms) day x xs k prev new dated chain =
      elim (Bool-cases (is_new_day calendar day m.created_at)) [
        | inl other_day ↦ rw other_day (
          refl,
          new,
          dated,
          chain,
          (
            other_day,
            layout-Opens ms (some m.created_at) m [] (k + 1),
            layout-IsBuilt ms (some m.created_at) m [] (k + 1) none refl (on_day_self m, tt) tt,
          ),
        )
        | inr same ↦ elim (Bool-cases (joins_last calendar (last (x ∷ xs)) m)) [
          | inl joined ↦
              rw (same, joined)
                (layout-IsBuilt ms day x (xs ++ m ∷ []) k prev new
                  (AllOnDay-snoc day (x ∷ xs) m dated (on_day_same day m same))
                  (IsChain-snoc x xs m chain joined))
          | inr apart ↦
              rw (same, apart)
                (
                  refl,
                  new,
                  dated,
                  chain,
                  layout-IsBuilt ms day m [] (k + 1) (last (x ∷ xs)) apart
                      (on_day_same day m same, tt) tt,
                )
        ]
      ]

  start : (ms : List ChatMessage) → IsBuilt 0 none none (layout calendar none [] 0 ms)
  unfolding layout
  start [] = tt
  start (m ∷ ms) = (
    refl,
    layout-Opens ms (some m.created_at) m [] 0,
    layout-IsBuilt ms (some m.created_at) m [] 0 none refl (on_day_self m, tt) tt,
  )

  pub build_render_list-IsBuilt :
      (ms : List ChatMessage)
      → (messages_of (build_render_list calendar ms) ≡ ms)
        × IsBuilt 0 none none (build_render_list calendar ms)
  unfolding build_render_list
  build_render_list-IsBuilt ms =
      let same = out-build calendar ms [] none [] 0 in
      (ap messages_of same ∙ messages_of-layout ms none [] 0, rw same (start ms))
