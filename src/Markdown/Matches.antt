-- ===== src/Markdown/Matches.antt =====
-- What the alternatives of `tokenizeInline` of client/src/utils/markdown.tsx match.
use Prim.Native.Char.{Char, code}
use Prim.Native.String.{◌++◌}
use mathlib.Core.Path.{subst}
use package.text.Mathlib.TextEquality.{Char-path}
use package.text.Mathlib.TextLemmas.{nil-append, cons-append, append_assoc}
use dfchat.Common.{
  ℕ, String, ◌≡◌, refl, sym, ap, ◌∙◌, Bool, false, Option, none, some, nat_eq, arith, ◌⊎◌, inl, inr,
  Bool-cases, Option-cases,
}
use dfchat.Markdown.Inline.{
  Span, is_blank, plain, bold, italic, code_span, link, strip, run_of, after_run, is_inner, is_link,
  enclosed, url, or_try, match_at,
}

some_injective : {A : Type 0} {a b : A} → some a ≡ some b → a ≡ b
some_injective e = ground (arith, e)

is_blank-append : (m t : String) → is_blank m ≡ false → is_blank (m ++ t) ≡ false
is_blank-append String.[] t h = cc
is_blank-append (String.◌∷◌ c m) t h = rw (cons-append c m t) refl

append_assoc3 : (a b c d : String) → (a ++ b ++ c) ++ d ≡ a ++ b ++ c ++ d
append_assoc3 a b c d = append_assoc a (b ++ c) d ∙ ap (λ x. a ++ x) (append_assoc b c d)

pub strip_lem : (m s t : String) → strip m s ≡ some t → s ≡ m ++ t
unfolding strip
strip_lem String.[] s t e = some_injective e ∙ sym (nil-append t)
strip_lem (String.◌∷◌ c m) String.[] t e = cc
strip_lem (String.◌∷◌ c m) (String.◌∷◌ d s) t e = elim (Bool-cases (nat_eq (code c) (code d))) [
  | inl same ↦
      let at : d ≡ c = Char-path d c (ground (arith, same)) in
      let rest : strip m s ≡ some t = ground (arith, same, e) in
      ap (λ a. String.◌∷◌ a s) at
      ∙ ap (String.◌∷◌ c) (strip_lem m s t rest)
      ∙ sym (cons-append c m t)
  | inr other ↦ ground (arith, other, e)
]

run_of-append_after_run : (p : Char → Bool) (s : String) → s ≡ run_of p s ++ after_run p s
unfolding run_of after_run
run_of-append_after_run p String.[] = sym (nil-append "")
run_of-append_after_run p (String.◌∷◌ c s) = elim (Bool-cases (p c)) [
  | inl e ↦ rw e (
      ap (String.◌∷◌ c) (run_of-append_after_run p s)
      ∙ sym (cons-append c (run_of p s) (after_run p s)))
  | inr e ↦ rw e (sym (nil-append (String.◌∷◌ c s)))
]

-- what a span was written as
abbrev pub IsSource : Span → String → Type 0
IsSource (plain t) p = p ≡ t
IsSource (bold t) p = (p ≡ "**" ++ t ++ "**") ⊎ (p ≡ "__" ++ t ++ "__")
IsSource (italic t) p = (p ≡ "*" ++ t ++ "*") ⊎ (p ≡ "_" ++ t ++ "_")
IsSource (code_span t) p = p ≡ "`" ++ t ++ "`"
IsSource (link t) p = p ≡ t

-- A place where a span was matched.
abbrev pub IsMatch : String → Span → String → Type 0
IsMatch s span p = (rest : String) × (s ≡ p ++ rest) × (is_blank p ≡ false) × IsSource span p

enclosed_lem :
    (mark : String) (k : ℕ) (s t p : String)
    → is_blank mark ≡ false
    → enclosed mark k s ≡ some (t, p)
    → (rest : String) × (s ≡ p ++ rest) × (is_blank p ≡ false) × (p ≡ mark ++ t ++ mark)
unfolding enclosed
enclosed_lem mark k s t p full e = elim (Option-cases (strip mark s)) [
  | inl none_at ↦ ground (arith, none_at, e)
  | inr (u, opens) ↦
      let inner = run_of (is_inner k) u in
      let after = after_run (is_inner k) u in
      elim (Option-cases (strip mark after)) [
        | inl none_at ↦ ground (arith, opens, none_at, e)
        | inr (rest, closes) ↦ elim (Bool-cases (is_blank inner)) [
          | inl blank ↦ ground (arith, opens, closes, blank, e)
          | inr filled ↦
              let same_t : inner ≡ t = ground (arith, opens, closes, filled, e) in
              let same_p : mark ++ inner ++ mark ≡ p = ground (arith, opens, closes, filled, e) in
              let made : p ≡ mark ++ t ++ mark = sym same_p ∙ ap (λ x. mark ++ x ++ mark) same_t in
              (
                rest,
                strip_lem mark s u opens
                    ∙ ap (λ x. mark ++ x) (run_of-append_after_run (is_inner k) u)
                    ∙ ap (λ x. mark ++ inner ++ x) (strip_lem mark after rest closes)
                    ∙ sym (append_assoc3 mark inner mark rest)
                    ∙ ap (λ x. x ++ rest) same_p,
                ap is_blank (sym same_p) ∙ is_blank-append mark (inner ++ mark) full,
                made,
              )
        ]
      ]
]

url_lem :
    (start s t p : String)
    → is_blank start ≡ false
    → url start s ≡ some (t, p)
    → (rest : String) × (s ≡ p ++ rest) × (is_blank p ≡ false) × (p ≡ t)
unfolding url
url_lem start s t p full e = elim (Option-cases (strip start s)) [
  | inl none_at ↦ ground (arith, none_at, e)
  | inr (u, opens) ↦
      let path = run_of is_link u in
      elim (Bool-cases (is_blank path)) [
        | inl blank ↦ ground (arith, opens, blank, e)
        | inr filled ↦
            let same_t : start ++ path ≡ t = ground (arith, opens, filled, e) in
            let same_p : start ++ path ≡ p = ground (arith, opens, filled, e) in
            (
              after_run is_link u,
              strip_lem start s u opens
                  ∙ ap (λ x. start ++ x) (run_of-append_after_run is_link u)
                  ∙ sym (append_assoc start path (after_run is_link u))
                  ∙ ap (λ x. x ++ after_run is_link u) same_p,
              ap is_blank (sym same_p) ∙ is_blank-append start path full,
              sym same_p ∙ same_t,
            )
      ]
]

or_try_cases :
    (f : String → Span) (o : Option (String × String)) (next : Option (Span × String)) (span : Span)
    (p : String)
    → or_try f o next ≡ some (span, p)
    → ((t : String) × (o ≡ some (t, p)) × (span ≡ f t)) ⊎ (next ≡ some (span, p))
or_try_cases f none next span p e = inr e
or_try_cases f (some (t, q)) next span p e =
    let same : q ≡ p = ground (arith, e) in inl (t, ap (λ x. some (t, x)) same, ground (arith, e))

-- One alternative and those after it.
or_try-IsMatch :
    (s : String) (f : String → Span) (o : Option (String × String)) (next : Option (Span × String))
    (span : Span) (p : String)
    → ((t : String) → o ≡ some (t, p) → IsMatch s (f t) p)
    → (next ≡ some (span, p) → IsMatch s span p)
    → or_try f o next ≡ some (span, p)
    → IsMatch s span p
or_try-IsMatch s f o next span p here later e = elim (or_try_cases f o next span p e) [
  | inl (t, at, same) ↦ subst (λ x. IsMatch s x p) (sym same) (here t at)
  | inr next_at ↦ later next_at
]

pub match_at-IsMatch :
    (s : String) (span : Span) (p : String) → match_at s ≡ some (span, p) → IsMatch s span p
unfolding match_at
match_at-IsMatch s span p =
    or_try-IsMatch s code_span _ _ span p (λ t. enclosed_lem "`" b'`' s t p refl)
      (or_try-IsMatch s bold _ _ span p
        (λ t e.
          let (r, at, full, made) = enclosed_lem "**" b'*' s t p refl e in (r, at, full, inl made))
        (or_try-IsMatch s bold _ _ span p
          (λ t e.
            let (r, at, full, made) = enclosed_lem "__" b'_' s t p refl e in
            (r, at, full, inr made))
          (or_try-IsMatch s italic _ _ span p
            (λ t e.
              let (r, at, full, made) = enclosed_lem "*" b'*' s t p refl e in
              (r, at, full, inl made))
            (or_try-IsMatch s italic _ _ span p
              (λ t e.
                let (r, at, full, made) = enclosed_lem "_" b'_' s t p refl e in
                (r, at, full, inr made))
              (or_try-IsMatch s link _ _ span p (λ t. url_lem "https://" s t p refl)
                (or_try-IsMatch s link _ none span p (λ t. url_lem "http://" s t p refl)
                  (λ e. cc)))))))
