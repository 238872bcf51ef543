-- ===== src/Search/Marks.antt =====
-- client/src/components/SearchModal.tsx: the pieces of a result are its text.
use Prim.Native.String.{◌++◌}
use text.Mathlib.TextLemmas.{nil-append, cons-append, append-nil}
use dfchat.Common.{
  ℕ, zero, suc, String, ◌≡◌, refl, ap, ◌∙◌, List, [], ◌∷◌, Bool-cases, inl, inr, is_some,
}
use dfchat.Markdown.Inline.{is_blank, strip}
use dfchat.Register.{size}
use dfchat.Search.{Piece, plain, marked, take, drop, push_gap, pred, highlight_from, highlight}

abbrev pub text_of : Piece → String
text_of (plain s) = s
text_of (marked s) = s

unfoldable pub join : List Piece → String
join [] = ""
join (p ∷ ps) = text_of p ++ join ps

pub take-drop : (n : ℕ) (s : String) → take n s ++ drop n s ≡ s
unfolding take drop
take-drop zero s = nil-append s
take-drop (suc n) String.[] = nil-append ""
take-drop (suc n) (String.◌∷◌ c s) =
    cons-append c (take n s) (drop n s) ∙ ap (String.◌∷◌ c) (take-drop n s)

-- What stands between the marks and the mark itself.
pub join-found :
    (n gap : ℕ) (rest : String) (ps : List Piece)
    → join ps ≡ drop n (drop gap rest)
    → join (push_gap gap rest (marked (take n (drop gap rest)) ∷ ps)) ≡ rest
unfolding join drop
join-found n zero rest ps h = ap (λ s. take n (drop 0 rest) ++ s) h ∙ take-drop n (drop 0 rest)
join-found n (suc gap) rest ps h =
    ap (λ s. take (suc gap) rest ++ (take n (drop (suc gap) rest) ++ s)) h
    ∙ ap (λ s. take (suc gap) rest ++ s) (take-drop n (drop (suc gap) rest))
    ∙ take-drop (suc gap) rest

pub join-highlight_from :
    (t : String) (n : ℕ) (low : String) (skip gap : ℕ) (rest : String)
    → join (highlight_from t n low skip gap rest) ≡ rest
unfolding highlight_from join
join-highlight_from t n String.[] skip gap String.[] = refl
join-highlight_from t n String.[] skip gap (String.◌∷◌ c s) = append-nil (String.◌∷◌ c s)
join-highlight_from t n (String.◌∷◌ c low) (suc skip) gap rest =
    join-highlight_from t n low skip gap rest
join-highlight_from t n (String.◌∷◌ c low) zero gap rest =
    elim (Bool-cases (is_some (strip t (String.◌∷◌ c low)))) [
      | inl h ↦ rw h (
          join-found n gap rest (highlight_from t n low (pred n) 0 (drop n (drop gap rest)))
            (join-highlight_from t n low (pred n) 0 (drop n (drop gap rest))))
      | inr h ↦ rw h (join-highlight_from t n low zero (suc gap) rest)
    ]

-- Whatever the lower case of a text is, the pieces with and without marks are, one after the other, the
-- text.
pub join-highlight :
    (lower : String → String) (text term : String) → join (highlight lower text term) ≡ text
unfolding highlight join
join-highlight lower text term = elim (Bool-cases (is_blank term)) [
  | inl h ↦ rw h (append-nil text)
  | inr h ↦ rw h (join-highlight_from (lower term) (size term) (lower text) 0 0 text)
]
