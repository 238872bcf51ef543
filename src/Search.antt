-- ===== src/Search.antt =====
-- client/src/components/SearchModal.tsx: the marks in a result, the search while it is typed, and where
-- a result leads. `lower` is `toLowerCase`.
pub mod Marks
pub mod Matches
pub mod Unmarked
pub mod Answers
use Prim.Native.Char.{Char}
use Prim.Native.String
use dfchat.Common.{
  ℕ, zero, suc, ◌+◌, ◌-◌, String, Bool, true, false, Option, none, some, List, [], ◌∷◌, ◌++◌, ltb,
  any, if◌then◌else◌, ◌==◌, is_some, min, length,
}
use dfchat.Common.Dict.{Dict}
use dfchat.Types.{Channel, Group}
use dfchat.Chat.{ChatState, ChatTarget, friend, channel}
use dfchat.Chat.Marks.{set_active_target, set_pending_jump}
use dfchat.View.Text.{trim}
use dfchat.Markdown.Inline.{is_blank, strip}
use dfchat.Register.{size}
use package.text.Mathlib.Text.{starts_with}
use dfchat.Home.{after_prefix, first_part, later_parts, find_channel}

-- A piece of a text, marked or not.
pub data Piece : Type 0 where
  plain marked : String → Piece

unfoldable pub take : ℕ → String → String
take zero s = ""
take (suc n) String.[] = ""
take (suc n) (String.◌∷◌ c s) = String.◌∷◌ c (take n s)

unfoldable pub drop : ℕ → String → String
drop zero s = s
drop (suc n) String.[] = ""
drop (suc n) (String.◌∷◌ c s) = drop n s

abbrev pub pred : ℕ → ℕ
pred zero = zero
pred (suc n) = n

-- what stands before a mark
abbrev pub push_gap : ℕ → String → List Piece → List Piece
push_gap zero s ps = ps
push_gap (suc n) s ps = plain (take (suc n) s) ∷ ps

-- The loop of `highlight`, which `indexOf` runs along the lowered text: `skip` is how far `last` is
-- ahead, `gap` how far behind, and `rest` the text from `last` on. `n` is `term.length`.
unfoldable pub highlight_from :
    (t : String) (n : ℕ) → (lowered : String) (skip gap : ℕ) (rest : String) → List Piece
highlight_from t n String.[] skip gap rest = if is_blank rest then [] else plain rest ∷ []
highlight_from t n (String.◌∷◌ c low) (suc skip) gap rest = highlight_from t n low skip gap rest
highlight_from t n (String.◌∷◌ c low) zero gap rest =
    let from = drop gap rest in
    let found =
      push_gap gap rest (marked (take n from) ∷ highlight_from t n low (pred n) 0 (drop n from)) in
    let later = highlight_from t n low zero (suc gap) rest in
    if is_some (strip t (String.◌∷◌ c low)) then found else later

unfoldable pub highlight : (lower : String → String) (text term : String) → List Piece
highlight lower text term =
    if is_blank term
    then plain text ∷ []
    else highlight_from (lower term) (size term) (lower text) 0 0 text

pub record SearchHit : Type 0 where
  pub id : String
  pub conversation_id : String
  pub seq : ℕ

-- `active` is none for -1; `timer` is the text that the timer searches for, `in_flight` what was asked
-- and not answered, the oldest first.
pub record Search : Type 0 where
  pub is_open : Bool
  pub q : String
  pub hits : List SearchHit
  pub busy : Bool
  pub active : Option ℕ
  pub timer : Option String
  pub in_flight : List String

-- the effect of a change of the text or of `open`
unfoldable pub debounce : Search → Search
debounce s0 =
    let s = record s0 { timer = none } in
    if s.is_open
    then (if is_blank (trim s.q)
        then record s { hits = []; busy = false }
        else record s { busy = true; timer = some s.q })
    else s

unfoldable pub set_q : String → Search → Search
set_q q s = debounce (record s { q = q })

unfoldable pub open_search : Search → Search
open_search s = debounce (record s { is_open = true; q = ""; hits = []; active = some 0 })

unfoldable pub close_search : Search → Search
close_search s = debounce (record s { is_open = false })

-- the timer, which asks the server
unfoldable pub on_timer : Search → Search
on_timer s = elim s.timer [
  | none ↦ s
  | some q ↦ record s { timer = none; in_flight = s.in_flight ++ q ∷ [] }
]

abbrev pub without : ℕ → List String → List String
without i [] = []
without zero (q ∷ qs) = qs
without (suc i) (q ∷ qs) = q ∷ without i qs

-- the answer to the request at a position, or an error
unfoldable pub on_hits : ℕ → Option (List SearchHit) → Search → Search
on_hits i none s = record s { hits = []; busy = false; in_flight = without i s.in_flight }
on_hits i (some l) s = record s {
  hits = l;
  active = some 0;
  busy = false;
  in_flight = without i s.in_flight;
}

-- `Math.min(n - 1, a)`
abbrev pub last_below : ℕ → ℕ → Option ℕ
last_below zero a = none
last_below (suc n) a = some (min n a)

-- the arrow keys
unfoldable pub on_arrow_down : Search → Search
on_arrow_down s = record s {
  active = elim s.active [
    | none ↦ last_below (length s.hits) 0
    | some a ↦ last_below (length s.hits) (suc a)
  ];
}

unfoldable pub on_arrow_up : Search → Search
on_arrow_up s = record s { active = elim s.active [ none ↦ some 0 | some a ↦ some (a - 1) ] }

abbrev pub loaded_group : String → Dict (List Channel) → Option String
loaded_group channel_id m = elim (find_channel channel_id m) [
  | none ↦ none
  | some (gid, ch) ↦ some gid
]

abbrev pub first_group : List Group → Option String
first_group [] = none
first_group (g ∷ gs) = some g.id

-- `convToTarget`
unfoldable pub conv_to_target :
    Option String → String → Dict (List Channel) → List Group → Option ChatTarget
conv_to_target me conv_id channels_by_group groups =
    let rest = after_prefix conv_id in
    let a = first_part rest in
    let b = first_part (later_parts rest) in
    let of_channel : Option ChatTarget = elim (loaded_group rest channels_by_group) [
      | some gid ↦ some (channel gid rest)
      | none ↦ elim (first_group groups) [ none ↦ none | some gid ↦ some (channel gid rest) ]
    ] in
    let of_friend : Option ChatTarget = elim me [
      | none ↦ none
      | some id ↦ some (friend (if a == id then b else a))
    ] in
    if starts_with conv_id "p_"
    then of_friend
    else if starts_with conv_id "c_"
    then of_channel
    else none

-- `openHit`, up to `onClose`
unfoldable pub open_hit : Option String → SearchHit → ChatState → ChatState
open_hit me h c = elim (conv_to_target me h.conversation_id c.channels_by_group c.groups) [
  | none ↦ c
  | some t ↦
      set_pending_jump
        (some (record { conv_id = h.conversation_id; message_id = h.id; seq = h.seq }))
        (set_active_target (some t) c)
]
