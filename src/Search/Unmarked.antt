-- ===== src/Search/Unmarked.antt =====
-- client/src/components/SearchModal.tsx: every occurrence of the term is marked, where the lower case is
-- taken character by character.
use Prim.Native.Char.{Char}
use text.Mathlib.TextLemmas.{append-nil}
use mathlib.Core.Path.{subst}
use dfchat.Common.{
  ℕ, zero, suc, String, false, ◌≡◌, refl, sym, ap, ◌∙◌, List, [], ◌∷◌, Bool-cases, inl, inr,
  is_some,
}
use dfchat.Markdown.Inline.{is_blank, strip}
use dfchat.Register.{size}
use dfchat.Search.Marks.{join, join-found, join-highlight_from}
use dfchat.Search.Matches.{map_chars, AreMatches, drop-map_chars, drop-suc, highlight-AreMatches}
use dfchat.Search.{Piece, plain, marked, take, drop, push_gap, highlight_from, highlight}

drop-nil : (n : ℕ) → drop n "" ≡ ""
unfolding drop
drop-nil zero = refl
drop-nil (suc n) = refl

join-plain : (s : String) → join (plain s ∷ []) ≡ s
unfolding join
join-plain s = append-nil s

module _ (f : Char → Char) (t : String) where
  -- At none of so many characters from the start does the text begin, once lowered, with the term.
  abbrev pub NoneIn : ℕ → String → Type 0
  NoneIn zero s = Unit {0}
  NoneIn (suc n) String.[] = Unit {0}
  NoneIn (suc n) (String.◌∷◌ c s) =
      (is_some (strip t (map_chars f (String.◌∷◌ c s))) ≡ false) × NoneIn n s

  -- No occurrence begins in a piece without mark, be it that it goes on into the next.
  abbrev pub AreUnmarked : List Piece → Type 0
  AreUnmarked [] = Unit {0}
  AreUnmarked (plain s ∷ ps) = NoneIn (size s) (join (plain s ∷ ps)) × AreUnmarked ps
  AreUnmarked (marked s ∷ ps) = AreUnmarked ps

  NoneIn-suc :
      (n : ℕ) (s : String)
      → NoneIn n s
      → is_some (strip t (map_chars f (drop n s))) ≡ false
      → NoneIn (suc n) s
  unfolding drop
  NoneIn-suc zero String.[] h e = tt
  NoneIn-suc zero (String.◌∷◌ c s) h e = (e, tt)
  NoneIn-suc (suc n) String.[] h e = tt
  NoneIn-suc (suc n) (String.◌∷◌ c s) (miss, h) e = (miss, NoneIn-suc n s h e)

  NoneIn-take : (n : ℕ) (s : String) → NoneIn n s → NoneIn (size (take n s)) s
  unfolding take
  NoneIn-take zero s h = tt
  NoneIn-take (suc n) String.[] h = tt
  NoneIn-take (suc n) (String.◌∷◌ c s) (miss, h) = (miss, NoneIn-take n s h)

  NoneIn-all : (n : ℕ) (s : String) → map_chars f (drop n s) ≡ "" → NoneIn n s → NoneIn (size s) s
  unfolding drop
  NoneIn-all n String.[] e h = tt
  NoneIn-all zero (String.◌∷◌ c s) e h = absurd (cc e)
  NoneIn-all (suc n) (String.◌∷◌ c s) e (miss, h) = (miss, NoneIn-all n s e h)

  push_gap-AreUnmarked :
      (n gap : ℕ) (rest : String) (ps : List Piece)
      → join ps ≡ drop n (drop gap rest)
      → NoneIn gap rest
      → AreUnmarked ps
      → AreUnmarked (push_gap gap rest (marked (take n (drop gap rest)) ∷ ps))
  push_gap-AreUnmarked n zero rest ps e h u = u
  push_gap-AreUnmarked n (suc gap) rest ps e h u = (
    subst (NoneIn (size (take (suc gap) rest))) (sym (join-found n (suc gap) rest ps e))
        (NoneIn-take (suc gap) rest h),
    u,
  )

  module _ (k : ℕ) where
    highlight_from-AreUnmarked :
        (low : String) (skip gap : ℕ) (rest : String)
        → map_chars f (drop gap rest) ≡ drop skip low
        → NoneIn gap rest
        → AreUnmarked (highlight_from t (suc k) low skip gap rest)
    unfolding highlight_from drop
    highlight_from-AreUnmarked String.[] skip gap String.[] h none_yet = tt
    highlight_from-AreUnmarked String.[] skip gap (String.◌∷◌ c s) h none_yet = (
      subst (NoneIn (suc (size s))) (sym (join-plain (String.◌∷◌ c s)))
          (NoneIn-all gap (String.◌∷◌ c s) (h ∙ drop-nil skip) none_yet),
      tt,
    )
    highlight_from-AreUnmarked (String.◌∷◌ c low) (suc skip) gap rest h none_yet =
        highlight_from-AreUnmarked low skip gap rest h none_yet
    highlight_from-AreUnmarked (String.◌∷◌ c low) zero gap rest h none_yet =
        let from = drop gap rest in
        elim (Bool-cases (is_some (strip t (String.◌∷◌ c low)))) [
          | inl e ↦ rw e (
              push_gap-AreUnmarked (suc k) gap rest _
                (join-highlight_from t (suc k) low k 0 (drop (suc k) from)) none_yet
                (highlight_from-AreUnmarked low k 0 (drop (suc k) from)
                  (sym (drop-map_chars f (suc k) from) ∙ ap (drop (suc k)) h) tt))
          | inr e ↦ rw e (
              highlight_from-AreUnmarked low zero (suc gap) rest
                (ap (map_chars f) (drop-suc gap rest)
                  ∙ sym (drop-map_chars f 1 from)
                  ∙ ap (drop 1) h)
                (NoneIn-suc gap rest none_yet (ap (λ s. is_some (strip t s)) h ∙ e)))
        ]

-- For any text and any term that is not empty, where the lower case is taken character by character: the
-- pieces are, one after the other, the text; each mark is an occurrence of the term, upper and lower
-- case aside; and no occurrence begins in a piece without mark.
pub highlight-AreUnmarked :
    (f : Char → Char) (text term : String)
    → is_blank term ≡ false
    → let pieces = highlight (map_chars f) text term in
      (join pieces ≡ text)
      × AreMatches (map_chars f) (map_chars f term) pieces
      × AreUnmarked f (map_chars f term) pieces
unfolding highlight drop
highlight-AreUnmarked f text String.[] h = absurd (cc h)
highlight-AreUnmarked f text (String.◌∷◌ c term) h =
    let (whole, found) = highlight-AreMatches f text (String.◌∷◌ c term) in
    (
      whole,
      found,
      highlight_from-AreUnmarked f (map_chars f (String.◌∷◌ c term)) (size term) (map_chars f text)
          0 0 text refl tt,
    )
