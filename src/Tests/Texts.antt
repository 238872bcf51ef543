-- ===== src/Tests/Texts.antt =====
-- Messages as client/src/utils/markdown.tsx shows them.
use dfchat.Common.{String, ◌≡◌, refl, Bool, [], ◌∷◌, ◌==◌}
use dfchat.View.Text.{word}
use dfchat.Markdown.Inline.{
  plain, bold, italic, code_span, link, strip, run_of, after_run, enclosed, url, match_at, scan,
  tokenize_inline,
}
use dfchat.Markdown.Spans
use dfchat.Markdown.Spans.{IsWritten}
use dfchat.Markdown.Mentions.{
  words, everyone, known, unknown, strip_any_case, trigger_at, everyone_at, mention_at,
  scan_mentions, render_mentions,
}
use dfchat.Markdown.Blocks.{
  fragment, code_block, quote_block, paragraph, render_span, skip_newlines, drop_newlines,
  to_last_newline, separator_at, split_paragraphs, split_lines, join_lines, until_fence, fence_at,
  render_paragraph, render_paragraphs, scan_fences, render_markdown,
}

abbrev sample : String
sample = "a **b** `c*d` __ _e_ https://x.y"

tokenize_inline-IsWritten_example : IsWritten (tokenize_inline sample) sample
tokenize_inline-IsWritten_example = Spans.tokenize_inline-IsWritten sample

spans_of_sample :
    tokenize_inline sample
    ≡ plain "a "
      ∷ bold "b"
      ∷ plain " "
      ∷ code_span "c*d"
      ∷ plain " _"
      ∷ italic " "
      ∷ plain "e_ "
      ∷ link "https://x.y"
      ∷ []
unfolding scan match_at enclosed url strip run_of after_run
spans_of_sample = refl

abbrev is_ann : String → Bool
is_ann h = h == "ann"

mentions_of_names :
    render_mentions is_ann "@ann, @ALL! @bo"
    ≡ known "ann" ∷ words ", " ∷ everyone ∷ words "! " ∷ unknown "bo" ∷ []
unfolding scan_mentions mention_at everyone_at trigger_at strip_any_case word
mentions_of_names = refl

-- A trigger in Chinese counts only before a character of `\w`.
mentions_of_all :
    (render_mentions is_ann "@所有人 hi" ≡ words "@所有人 hi" ∷ [])
    × (render_mentions is_ann "@所有人hi" ≡ everyone ∷ words "hi" ∷ [])
unfolding scan_mentions mention_at everyone_at trigger_at strip_any_case word
mentions_of_all = (refl, refl)

blocks_of_message :
    render_markdown is_ann "hi\n\n> q\n> r```\nx\n```"
    ≡ paragraph (fragment (words "hi" ∷ []) ∷ [])
      ∷ quote_block (fragment (words "q\nr" ∷ []) ∷ [])
      ∷ code_block "x"
      ∷ []
unfolding scan_fences render_paragraph render_paragraphs fence_at until_fence split_lines join_lines
    split_paragraphs separator_at to_last_newline drop_newlines skip_newlines render_span
    scan_mentions mention_at everyone_at trigger_at strip_any_case word scan match_at enclosed url
    strip run_of after_run
blocks_of_message = refl
