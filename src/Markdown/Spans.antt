-- ===== src/Markdown/Spans.antt =====
-- The spans of client/src/utils/markdown.tsx and the text that they come from.
use Prim.Native.Char.{Char}
use Prim.Native.String.{◌++◌}
use mathlib.Core.Path.{subst}
use package.text.Mathlib.TextLemmas.{nil-append, cons-append, append_assoc}
use dfchat.Common.{
  String, ◌≡◌, refl, sym, ap, ◌∙◌, false, none, some, List, [], ◌∷◌, inl, inr, Option-cases,
}
use dfchat.Markdown.Inline.{Span, is_blank, match_at, tail, flush, scan, tokenize_inline}
use dfchat.Markdown.Matches.{IsSource, match_at-IsMatch}

-- The text is what the spans were written as, one after the other, none of them empty.
abbrev pub IsWritten : List Span → String → Type 0
IsWritten [] s = s ≡ ""
IsWritten (span ∷ spans) s =
    (p : String) × (rest : String) × (s ≡ p ++ rest)
    × (is_blank p ≡ false)
    × IsSource span p
    × IsWritten spans rest

flush-IsWritten :
    (t s : String) (spans : List Span) → IsWritten spans s → IsWritten (flush t spans) (t ++ s)
flush-IsWritten String.[] s spans h = subst (IsWritten spans) (sym (nil-append s)) h
flush-IsWritten (String.◌∷◌ c t) s spans h = (String.◌∷◌ c t, s, refl, refl, refl, h)

append_char :
    (t : String) (c : Char) (s : String) → (t ++ String.◌∷◌ c "") ++ s ≡ t ++ String.◌∷◌ c s
append_char t c s =
    append_assoc t (String.◌∷◌ c "") s
    ∙ ap (λ x. t ++ x) (cons-append c "" s ∙ ap (String.◌∷◌ c) (nil-append s))

tail_append :
    (c : Char) (s p r : String) → is_blank p ≡ false → String.◌∷◌ c s ≡ p ++ r → s ≡ tail p ++ r
tail_append c s String.[] r full e = cc
tail_append c s (String.◌∷◌ d p) r full e = ap tail (e ∙ cons-append d p r)

scan_plain :
    (before : String) (c : Char) (s : String)
    → match_at (String.◌∷◌ c s) ≡ none
    → scan "" before (String.◌∷◌ c s) ≡ scan "" (before ++ String.◌∷◌ c "") s
unfolding scan
scan_plain before c s e = rw (e, scan) refl

scan_matched :
    (before : String) (c : Char) (s : String) (span : Span) (p : String)
    → match_at (String.◌∷◌ c s) ≡ some (span, p)
    → scan "" before (String.◌∷◌ c s) ≡ flush before (span ∷ scan (tail p) "" s)
unfolding scan
scan_matched before c s span p e = rw (e, scan) refl

-- From a place: what is left of a match is skipped, the rest is written with the text before it.
scan-IsWritten :
    (skip before s rest : String)
    → s ≡ skip ++ rest
    → IsWritten (scan skip before s) (before ++ rest)
unfolding scan
scan-IsWritten String.[] before String.[] rest e =
    subst (λ r. IsWritten (flush before []) (before ++ r)) (e ∙ nil-append rest)
      (flush-IsWritten before "" [] refl)
scan-IsWritten (String.◌∷◌ k skip) before String.[] rest e =
    let impossible : "" ≡ String.◌∷◌ k (skip ++ rest) = e ∙ cons-append k skip rest in cc
scan-IsWritten (String.◌∷◌ k skip) before (String.◌∷◌ c s) rest e =
    scan-IsWritten skip before s rest (ap tail (e ∙ cons-append k skip rest))
scan-IsWritten String.[] before (String.◌∷◌ c s) rest e =
    let whole : String.◌∷◌ c s ≡ rest = e ∙ nil-append rest in
    elim (Option-cases (match_at (String.◌∷◌ c s))) [
      | inl none_at ↦
          subst (λ l. IsWritten l (before ++ rest)) (sym (scan_plain before c s none_at))
            (subst (IsWritten (scan "" (before ++ String.◌∷◌ c "") s))
              (append_char before c s ∙ ap (λ x. before ++ x) whole)
              (scan-IsWritten "" (before ++ String.◌∷◌ c "") s s (sym (nil-append s))))
      | inr ((span, p), at) ↦
          let (r, splits, full, source) = match_at-IsMatch (String.◌∷◌ c s) span p at in
          let later = scan-IsWritten (tail p) "" s r (tail_append c s p r full splits) in
          let spans = scan (tail p) "" s in
          let here : IsWritten (span ∷ spans) (String.◌∷◌ c s) =
            (p, r, splits, full, source, subst (IsWritten spans) (nil-append r) later) in
          subst (λ l. IsWritten l (before ++ rest)) (sym (scan_matched before c s span p at))
            (subst (λ x. IsWritten (flush before (span ∷ spans)) (before ++ x)) whole
              (flush-IsWritten before (String.◌∷◌ c s) (span ∷ spans) here))
    ]

-- No text is lost, moved or shown twice: the spans of a text are, one after the other, what it is made
-- of, each with its marks, and none is of an empty piece.
pub tokenize_inline-IsWritten : (text : String) → IsWritten (tokenize_inline text) text
tokenize_inline-IsWritten text =
    subst (IsWritten (tokenize_inline text)) (nil-append text)
      (scan-IsWritten "" "" text text (sym (nil-append text)))
