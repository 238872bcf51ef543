-- ===== src/Markdown/Mentions.antt =====
-- `renderMentions` of client/src/utils/markdown.tsx.
use Prim.Native.Char.{Char, code}
use Prim.Native.String.{◌++◌}
use dfchat.Common.{
  ℕ, ◌+◌, String, Bool, false, not, ◌&&◌, ◌||◌, Option, none, some, List, [], ◌∷◌, leb, nat_eq,
  if◌then◌else◌,
}
use dfchat.View.Text.{is_word, word}
use dfchat.Markdown.Inline.{is_blank}

pub data Mention : Type 0 where
  words : String → Mention
  everyone : Mention
  known unknown : (handle : String) → Mention

-- the code of a letter without its case: the flag `i`, for letters of ASCII
abbrev pub lower_code : Char → ℕ
lower_code c = let n = code c in if leb 65 n && leb n 90 then n + 32 else n

-- the text after a literal that it starts with, in whatever case
unfoldable pub strip_any_case : String → String → Option String
strip_any_case String.[] s = some s
strip_any_case (String.◌∷◌ c m) String.[] = none
strip_any_case (String.◌∷◌ c m) (String.◌∷◌ d s) =
    let rest = strip_any_case m s in if nat_eq (lower_code c) (lower_code d) then rest else none

abbrev pub starts_with_word : String → Bool
starts_with_word String.[] = false
starts_with_word (String.◌∷◌ c s) = is_word c

abbrev pub ends_with_word : String → Bool
ends_with_word String.[] = false
ends_with_word (String.◌∷◌ c String.[]) = is_word c
ends_with_word (String.◌∷◌ c (String.◌∷◌ d s)) = ends_with_word (String.◌∷◌ d s)

-- A trigger and then `\b`, which is between a character of `\w` (of ASCII) and one that is none.
unfoldable pub trigger_at : String → String → Bool
trigger_at trigger s = elim (strip_any_case trigger s) [
  | none ↦ false
  | some t ↦
      not (ends_with_word trigger) && starts_with_word t
      || ends_with_word trigger && not (starts_with_word t)
]

abbrev pub or_trigger : String → String → Option String → Option String
or_trigger trigger s next = if trigger_at trigger s then some trigger else next

-- the alternatives of `everyoneRe` after the `@`, in their order
unfoldable pub everyone_at : String → Option String
everyone_at s =
    or_trigger "everyone" s
      (or_trigger "all" s (or_trigger "所有人" s (or_trigger "全体" s (or_trigger "全体成员" s none))))

-- What is matched at a place, with what is to be skipped after the first character. A match of either
-- expression has one `@`, its first character, so that two overlap only where they start at one place,
-- and there `everyoneRe` comes first.
unfoldable pub mention_at : (String → Bool) → String → Option (Mention × String)
mention_at is_known String.[] = none
mention_at is_known (String.◌∷◌ c s) =
    let handle = word s in
    let named : Option (Mention × String) =
      if is_blank handle
      then none
      else some (if is_known handle then known handle else unknown handle, handle) in
    let found : Option (Mention × String) = elim (everyone_at s) [
      | some trigger ↦ some (everyone, trigger)
      | none ↦ named
    ] in
    if nat_eq (code c) b'@' then found else none

abbrev pub flush_words : String → List Mention → List Mention
flush_words t rest = if is_blank t then rest else words t ∷ rest

unfoldable pub scan_mentions : (String → Bool) → String → String → String → List Mention
scan_mentions is_known skip before String.[] = flush_words before []
scan_mentions is_known (String.◌∷◌ k skip) before (String.◌∷◌ c s) =
    scan_mentions is_known skip before s
scan_mentions is_known String.[] before (String.◌∷◌ c s) =
    elim (mention_at is_known (String.◌∷◌ c s)) [
      | none ↦ scan_mentions is_known "" (before ++ String.◌∷◌ c "") s
      | some (m, matched) ↦ flush_words before (m ∷ scan_mentions is_known matched "" s)
    ]

abbrev pub render_mentions : (String → Bool) → String → List Mention
render_mentions is_known text = scan_mentions is_known "" "" text
