-- ===== src/Markdown/Blocks.antt =====
-- `renderMarkdown` of client/src/utils/markdown.tsx.
use Prim.Native.Char.{Char, code}
use Prim.Native.String.{◌++◌}
use package.text.Mathlib.Text.{starts_with}
use dfchat.Common.{
  String, Bool, true, false, ◌&&◌, Option, none, some, List, [], ◌∷◌, map, nat_eq, all,
  if◌then◌else◌,
}
use dfchat.View.Text.{is_space}
use dfchat.Markdown.Inline.{
  Span, plain, bold, italic, code_span, link, is_blank, strip, run_of, tokenize_inline,
}
use dfchat.Markdown.Mentions.{Mention, render_mentions}

pub data Node : Type 0 where
  fragment strong em : List Mention → Node
  code_node anchor : String → Node

pub data Block : Type 0 where
  code_block : String → Block
  quote_block paragraph : List Node → Block

abbrev pub is_newline : Char → Bool
is_newline c = nat_eq (code c) 10

module _ (is_known : String → Bool) where
  unfoldable pub render_span : Span → Node
  render_span (plain t) = fragment (render_mentions is_known t)
  render_span (bold t) = strong (render_mentions is_known t)
  render_span (italic t) = em (render_mentions is_known t)
  render_span (code_span t) = code_node t
  render_span (link t) = anchor t

  -- `renderInlineWithMentions`
  abbrev pub render_inline : String → List Node
  render_inline text = map render_span (tokenize_inline text)

-- `s.replace(/^\n+|\n+$/g, '')`
unfoldable pub skip_newlines : String → String
skip_newlines String.[] = ""
skip_newlines (String.◌∷◌ c s) = if is_newline c then skip_newlines s else String.◌∷◌ c s

unfoldable pub drop_newlines : String → String
drop_newlines String.[] = ""
drop_newlines (String.◌∷◌ c s) =
    let rest = drop_newlines s in if is_blank rest && is_newline c then "" else String.◌∷◌ c rest

abbrev pub trim_newlines : String → String
trim_newlines s = drop_newlines (skip_newlines s)

-- A text up to its last newline, if it has one.
unfoldable pub to_last_newline : String → Option String
to_last_newline String.[] = none
to_last_newline (String.◌∷◌ c s) = elim (to_last_newline s) [
  | some t ↦ some (String.◌∷◌ c t)
  | none ↦ if is_newline c then some (String.◌∷◌ c "") else none
]

-- The separator /\n\s*\n/ without its first character, where the white space goes on as long as a
-- newline ends it.
unfoldable pub separator_at : String → Option String
separator_at String.[] = none
separator_at (String.◌∷◌ c s) =
    let rest = to_last_newline (run_of is_space s) in if is_newline c then rest else none

-- `prose.split(/\n\s*\n/)`: what is left of a separator to be skipped, the paragraph so far, the text.
unfoldable pub split_paragraphs : String → String → String → List String
split_paragraphs skip before String.[] = before ∷ []
split_paragraphs (String.◌∷◌ k skip) before (String.◌∷◌ c s) = split_paragraphs skip before s
split_paragraphs String.[] before (String.◌∷◌ c s) = elim (separator_at (String.◌∷◌ c s)) [
  | none ↦ split_paragraphs "" (before ++ String.◌∷◌ c "") s
  | some matched ↦ before ∷ split_paragraphs matched "" s
]

-- `s.split('\n')` and `lines.join('\n')`
unfoldable pub split_lines : String → String → List String
split_lines before String.[] = before ∷ []
split_lines before (String.◌∷◌ c s) = elim (is_newline c) [
  | true ↦ before ∷ split_lines "" s
  | false ↦ split_lines (before ++ String.◌∷◌ c "") s
]

unfoldable pub join_lines : List String → String
join_lines [] = ""
join_lines (l ∷ []) = l
join_lines (l ∷ m ∷ ls) = l ++ "\n" ++ join_lines (m ∷ ls)

-- `l.replace(/^>\s?/, '')` of a line that starts with `>`
abbrev pub unquoted : String → String
unquoted String.[] = ""
unquoted (String.◌∷◌ c String.[]) = ""
unquoted (String.◌∷◌ c (String.◌∷◌ d s)) = if is_space d then s else String.◌∷◌ d s

-- The text before the first fence, if there is one.
unfoldable pub until_fence : String → Option String
until_fence String.[] = none
until_fence (String.◌∷◌ c s) = elim (strip "```" (String.◌∷◌ c s)) [
  | some t ↦ some ""
  | none ↦ elim (until_fence s) [ none ↦ none | some t ↦ some (String.◌∷◌ c t) ]
]

-- /```([\s\S]*?)```/, with its group, and what is to be skipped after the first character
unfoldable pub fence_at : String → Option (String × String)
fence_at s = elim (strip "```" s) [
  | none ↦ none
  | some t ↦ elim (until_fence t) [ none ↦ none | some body ↦ some (body, "``" ++ body ++ "```") ]
]

module _ (is_known : String → Bool) where
  unfoldable pub render_paragraph : String → List Block
  render_paragraph p =
      let trimmed = trim_newlines p in
      let lines = split_lines "" trimmed in
      let body = join_lines (map unquoted lines) in
      let block =
        if all (λ l. starts_with l ">") lines
        then quote_block (render_inline is_known body)
        else paragraph (render_inline is_known trimmed) in
      if is_blank trimmed then [] else block ∷ []

  unfoldable pub render_paragraphs : List String → List Block → List Block
  render_paragraphs [] after = after
  render_paragraphs (p ∷ ps) after = elim (render_paragraph p) [
    | [] ↦ render_paragraphs ps after
    | b ∷ bs ↦ b ∷ render_paragraphs ps after
  ]

  -- `renderProseBlock`
  abbrev pub render_prose : String → List Block → List Block
  render_prose prose after =
      if is_blank prose then after else render_paragraphs (split_paragraphs "" "" prose) after

  unfoldable pub scan_fences : String → String → String → List Block
  scan_fences skip before String.[] = render_prose before []
  scan_fences (String.◌∷◌ k skip) before (String.◌∷◌ c s) = scan_fences skip before s
  scan_fences String.[] before (String.◌∷◌ c s) = elim (fence_at (String.◌∷◌ c s)) [
    | none ↦ scan_fences "" (before ++ String.◌∷◌ c "") s
    | some (body, matched) ↦
        render_prose before (code_block (trim_newlines body) ∷ scan_fences matched "" s)
  ]

  abbrev pub render_markdown : String → List Block
  render_markdown text = scan_fences "" "" text
