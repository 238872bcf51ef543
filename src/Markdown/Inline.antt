-- ===== src/Markdown/Inline.antt =====
-- `tokenizeInline` of client/src/utils/markdown.tsx.
use Prim.Native.Char.{Char, code}
use Prim.Native.String.{◌++◌}
use dfchat.Common.{
  ℕ, String, Bool, true, false, not, ◌||◌, Option, none, some, List, [], ◌∷◌, nat_eq, if◌then◌else◌,
}
use dfchat.View.Text.{is_space}

pub data Span : Type 0 where
  plain bold italic code_span link : String → Span

-- whether `!s`
abbrev pub is_blank : String → Bool
is_blank String.[] = true
is_blank (String.◌∷◌ c s) = false

-- the text after a literal that it starts with
unfoldable pub strip : String → String → Option String
strip String.[] s = some s
strip (String.◌∷◌ c m) String.[] = none
strip (String.◌∷◌ c m) (String.◌∷◌ d s) =
    let rest = strip m s in if nat_eq (code c) (code d) then rest else none

-- the longest start of characters of a class, and what comes after it
unfoldable pub run_of : (Char → Bool) → String → String
run_of p String.[] = ""
run_of p (String.◌∷◌ c s) = if p c then String.◌∷◌ c (run_of p s) else ""

unfoldable pub after_run : (Char → Bool) → String → String
after_run p String.[] = ""
after_run p (String.◌∷◌ c s) = if p c then after_run p s else String.◌∷◌ c s

-- `[^k\n]`
abbrev pub is_inner : ℕ → Char → Bool
is_inner k c = not (nat_eq (code c) k || nat_eq (code c) 10)

-- `[^\s)]`
abbrev pub is_link : Char → Bool
is_link c = not (is_space c || nat_eq (code c) b')')

-- What a mark twice encloses, as in \*\*[^*\n]+?\*\*, with what was matched. The class leaves out the
-- first character of the mark, so that the shortest match is the only one.
abbrev pub closed_by : String → String → String → Option (String × String)
closed_by mark inner rest = elim (strip mark rest) [
  | none ↦ none
  | some t ↦ if is_blank inner then none else some (inner, mark ++ inner ++ mark)
]

unfoldable pub enclosed : String → ℕ → String → Option (String × String)
enclosed mark k s = elim (strip mark s) [
  | none ↦ none
  | some t ↦ closed_by mark (run_of (is_inner k) t) (after_run (is_inner k) t)
]

-- https?:\/\/[^\s)]+ after the given start
unfoldable pub url : String → String → Option (String × String)
url start s = elim (strip start s) [
  | none ↦ none
  | some t ↦
      let path = run_of is_link t in
      if is_blank path then none else some (start ++ path, start ++ path)
]

abbrev pub or_try :
    (String → Span) → Option (String × String) → Option (Span × String) → Option (Span × String)
or_try span (some (t, matched)) next = some (span t, matched)
or_try span none next = next

-- the alternatives in their order, with what was matched
unfoldable pub match_at : String → Option (Span × String)
match_at s = or_try code_span (enclosed "`" b'`' s) (
    or_try bold (enclosed "**" b'*' s) (
      or_try bold (enclosed "__" b'_' s) (
        or_try italic (enclosed "*" b'*' s) (
          or_try italic (enclosed "_" b'_' s)
            (or_try link (url "https://" s) (or_try link (url "http://" s) none))))))

abbrev pub tail : String → String
tail String.[] = ""
tail (String.◌∷◌ c s) = s

-- `text.slice(last, m.index)`, if there is any
abbrev pub flush : String → List Span → List Span
flush t spans = if is_blank t then spans else plain t ∷ spans

-- The loop, place by place: what is left of a match to be skipped, the text since `last`, and the text
-- from here.
unfoldable pub scan : String → String → String → List Span
scan skip before String.[] = flush before []
scan (String.◌∷◌ k skip) before (String.◌∷◌ c s) = scan skip before s
scan String.[] before (String.◌∷◌ c s) = elim (match_at (String.◌∷◌ c s)) [
  | none ↦ scan "" (before ++ String.◌∷◌ c "") s
  | some (span, matched) ↦ flush before (span ∷ scan (tail matched) "" s)
]

abbrev pub tokenize_inline : String → List Span
tokenize_inline text = scan "" "" text
