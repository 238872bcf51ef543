-- ===== src/View/Render.antt =====
-- `buildRenderList` of client/src/components/ChatView.tsx: the messages of a conversation as dates and
-- groups. What the platform's Date reads off a text is a parameter, with `none` for NaN.
use dfchat.Common.{
  ℕ, ◌+◌, ◌*◌, String, Bool, true, false, not, ◌&&◌, ◌||◌, Option, none, some, List, [], ◌∷◌, ◌++◌,
  ltb, nat_eq, if◌then◌else◌, ◌==◌,
}
use dfchat.Types.{ChatMessage}

-- `getTime()`, and the day that getFullYear, getMonth and getDate name.
pub record Calendar : Type 0 where
  pub time : String → Option ℕ
  pub day : String → Option ℕ

pub data RenderItem : Type 0 where
  date : String → RenderItem
  group : (key : ℕ) → List ChatMessage → RenderItem

-- The variables of the loop; a date is the text that it was made of.
pub record Builder : Type 0 where
  pub out : List RenderItem
  pub last_date : Option String
  pub current_group : List ChatMessage
  pub group_key : ℕ

abbrev pub last : List ChatMessage → Option ChatMessage
last [] = none
last (m ∷ []) = some m
last (m ∷ n ∷ ms) = last (n ∷ ms)

abbrev pub same_number : Option ℕ → Option ℕ → Bool
same_number (some a) (some b) = nat_eq a b
same_number _ _ = false

-- `after - before < 5 * 60 * 1000`
abbrev pub is_close : Option ℕ → Option ℕ → Bool
is_close (some before) (some after) = ltb after (before + 5 * 60 * 1000)
is_close _ _ = false

-- `!!m.replyTo`, the decimal text of a number that is not 0
abbrev pub is_reply : ChatMessage → Bool
is_reply m = elim m.reply_to [ none ↦ false | some id ↦ not (id == "" || id == "0") ]

unfoldable pub flush : Builder → Builder
flush b = elim b.current_group [
  | [] ↦ b
  | m ∷ ms ↦ record b {
    out = b.out ++ group b.group_key (m ∷ ms) ∷ [];
    current_group = [];
    group_key = b.group_key + 1;
  }
]

module _ (calendar : Calendar) where
  -- `isSameDay`
  abbrev pub is_same_day : String → String → Bool
  is_same_day a b = same_number (calendar.day a) (calendar.day b)

  -- `!lastDate || !isSameDay(lastDate, d)`
  abbrev pub is_new_day : Option String → String → Bool
  is_new_day none d = true
  is_new_day (some d') d = not (is_same_day d' d)

  -- whether the message goes to the group that ends with the other one
  unfoldable pub joins : ChatMessage → ChatMessage → Bool
  joins before m =
      (before.sender_id == m.sender_id)
      && (is_close (calendar.time before.created_at) (calendar.time m.created_at)
          && not (is_reply m))

  unfoldable pub to_day : Builder → ChatMessage → Builder
  to_day b m =
      let f = flush b in
      if is_new_day b.last_date m.created_at
      then record f { out = f.out ++ date m.created_at ∷ []; last_date = some m.created_at }
      else b

  unfoldable pub to_group : Builder → ChatMessage → Builder
  to_group b m = elim (last b.current_group) [
    | none ↦ record b { current_group = m ∷ [] }
    | some before ↦
        if joins before m
        then record b { current_group = b.current_group ++ m ∷ [] }
        else record (flush b) { current_group = m ∷ [] }
  ]

  unfoldable pub build : Builder → List ChatMessage → Builder
  build b [] = flush b
  build b (m ∷ ms) = build (to_group (to_day b m) m) ms

  unfoldable pub build_render_list : List ChatMessage → List RenderItem
  build_render_list messages =
      (build (record { out = []; last_date = none; current_group = []; group_key = 0 })
        messages).out
