-- ===== src/Search/Matches.antt =====
-- client/src/components/SearchModal.tsx: each mark is an occurrence of the term, where the lower case is
-- taken character by character.
use Prim.Native.Char.{Char}
use Prim.Native.String.{◌++◌}
use text.Mathlib.TextLemmas.{cons-append}
use dfchat.Common.{
  ℕ, zero, suc, String, true, ◌≡◌, refl, sym, ap, ◌∙◌, List, [], ◌∷◌, Bool-cases, Option-cases, inl,
  inr, is_some,
}
use dfchat.Markdown.Inline.{strip}
use dfchat.Markdown.Matches.{strip_lem}
use dfchat.Register.{size}
use dfchat.Search.Marks.{join, join-highlight}
use dfchat.Search.{Piece, plain, marked, take, drop, push_gap, highlight_from, highlight}

abbrev pub map_chars : (Char → Char) → String → String
map_chars f String.[] = ""
map_chars f (String.◌∷◌ c s) = String.◌∷◌ (f c) (map_chars f s)

-- Each mark is the text once it is lowered.
abbrev pub AreMatches : (lower : String → String) (t : String) → List Piece → Type 0
AreMatches lower t [] = Unit
AreMatches lower t (plain s ∷ ps) = AreMatches lower t ps
AreMatches lower t (marked s ∷ ps) = (lower s ≡ t) × AreMatches lower t ps

take-map_chars :
    (f : Char → Char) (n : ℕ) (s : String) → take n (map_chars f s) ≡ map_chars f (take n s)
unfolding take
take-map_chars f zero s = refl
take-map_chars f (suc n) String.[] = refl
take-map_chars f (suc n) (String.◌∷◌ c s) = ap (String.◌∷◌ (f c)) (take-map_chars f n s)

pub drop-map_chars :
    (f : Char → Char) (n : ℕ) (s : String) → drop n (map_chars f s) ≡ map_chars f (drop n s)
unfolding drop
drop-map_chars f zero s = refl
drop-map_chars f (suc n) String.[] = refl
drop-map_chars f (suc n) (String.◌∷◌ c s) = drop-map_chars f n s

pub size-map_chars : (f : Char → Char) (s : String) → size (map_chars f s) ≡ size s
size-map_chars f String.[] = refl
size-map_chars f (String.◌∷◌ c s) = ap suc (size-map_chars f s)

pub drop-suc : (n : ℕ) (s : String) → drop (suc n) s ≡ drop 1 (drop n s)
unfolding drop
drop-suc zero s = refl
drop-suc (suc n) String.[] = refl
drop-suc (suc n) (String.◌∷◌ c s) = drop-suc n s

take-size : (t r : String) → take (size t) (t ++ r) ≡ t
unfolding take
take-size String.[] r = refl
take-size (String.◌∷◌ c t) r = rw (cons-append c t r) (ap (String.◌∷◌ c) (take-size t r))

take-strip : (t s : String) → is_some (strip t s) ≡ true → take (size t) s ≡ t
take-strip t s h = elim (Option-cases (strip t s)) [
  | inl e ↦ absurd (cc (h, e))
  | inr (r, e) ↦ ap (take (size t)) (strip_lem t s r e) ∙ take-size t r
]

AreMatches-push_gap :
    (lower : String → String) (t : String) (gap : ℕ) (s : String) (ps : List Piece)
    → AreMatches lower t ps
    → AreMatches lower t (push_gap gap s ps)
AreMatches-push_gap lower t zero s ps h = h
AreMatches-push_gap lower t (suc gap) s ps h = h

module _ (f : Char → Char) (t : String) (k : ℕ) (long : size t ≡ suc k) where
  highlight_from-AreMatches :
      (low : String) (skip gap : ℕ) (rest : String)
      → map_chars f (drop gap rest) ≡ drop skip low
      → AreMatches (map_chars f) t (highlight_from t (suc k) low skip gap rest)
  unfolding highlight_from drop
  highlight_from-AreMatches String.[] skip gap String.[] h = tt
  highlight_from-AreMatches String.[] skip gap (String.◌∷◌ c s) h = tt
  highlight_from-AreMatches (String.◌∷◌ c low) (suc skip) gap rest h =
      highlight_from-AreMatches low skip gap rest h
  highlight_from-AreMatches (String.◌∷◌ c low) zero gap rest h =
      let from = drop gap rest in
      elim (Bool-cases (is_some (strip t (String.◌∷◌ c low)))) [
        | inl e ↦ rw e (
            AreMatches-push_gap (map_chars f) t gap rest _ (
              sym (take-map_chars f (suc k) from)
                  ∙ ap (take (suc k)) h
                  ∙ ap (λ n. take n (String.◌∷◌ c low)) (sym long)
                  ∙ take-strip t (String.◌∷◌ c low) e,
              highlight_from-AreMatches low k 0 (drop (suc k) from)
                  (sym (drop-map_chars f (suc k) from) ∙ ap (drop (suc k)) h),
            ))
        | inr e ↦ rw e (
            highlight_from-AreMatches low zero (suc gap) rest (
              ap (map_chars f) (drop-suc gap rest) ∙ sym (drop-map_chars f 1 from) ∙ ap (drop 1) h))
      ]

pub highlight-Found :
    (f : Char → Char) (text term : String)
    → AreMatches (map_chars f) (map_chars f term) (highlight (map_chars f) text term)
unfolding highlight drop
highlight-Found f text String.[] = tt
highlight-Found f text (String.◌∷◌ c term) =
    highlight_from-AreMatches f (map_chars f (String.◌∷◌ c term)) (size term)
      (size-map_chars f (String.◌∷◌ c term)) (map_chars f text) 0 0 text refl

-- For any text and term, the pieces are, one after the other, the text, and each mark is an occurrence of
-- the term, upper and lower case aside.
pub highlight-AreMatches :
    (f : Char → Char) (text term : String)
    → (join (highlight (map_chars f) text term) ≡ text)
      × AreMatches (map_chars f) (map_chars f term) (highlight (map_chars f) text term)
highlight-AreMatches f text term =
    (join-highlight (map_chars f) text term, highlight-Found f text term)
