-- ===== src/Api/Url.antt =====
-- The path of a request as a text, and its segments as a server reads them: up to the query or the
-- fragment, at each slash. Escapes are left as they are.
use Prim.Native.Char.{Char, code}
use Prim.Native.String.{◌++◌}
use text.Mathlib.TextLemmas.{nil-append, cons-append, append-nil}
use dfchat.Common.{
  String, Bool, true, false, not, ◌&&◌, ◌||◌, ◌≡◌, refl, ap, List, [], ◌∷◌, nat_eq, if◌then◌else◌,
  arith,
}
use dfchat.Markdown.Inline.{is_blank}
use dfchat.Register.{all_chars}

abbrev pub is_end : Char → Bool
is_end c = nat_eq (code c) b'?' || nat_eq (code c) b'#'

abbrev pub is_slash : Char → Bool
is_slash c = nat_eq (code c) b'/'

-- A text that is one segment where it is written into a path.
abbrev pub is_inner : Char → Bool
is_inner c = not (is_slash c) && not (is_end c)

abbrev pub is_segment : String → Bool
is_segment s = not (is_blank s) && all_chars is_inner s

-- `/a/b/c`
unfoldable pub print_path : List String → String
print_path [] = ""
print_path (s ∷ ss) = String.◌∷◌ "/" (s ++ print_path ss)

abbrev pub to_head : Char → List String → List String
to_head c [] = String.◌∷◌ c "" ∷ []
to_head c (s ∷ ss) = String.◌∷◌ c s ∷ ss

-- The texts between the slashes.
unfoldable pub split_path : String → List String
split_path String.[] = "" ∷ []
split_path (String.◌∷◌ c s) =
    let rest = split_path s in
    if is_end c then "" ∷ [] else if is_slash c then "" ∷ rest else to_head c rest

abbrev pub drop_first : List String → List String
drop_first [] = []
drop_first (s ∷ ss) = ss

-- The segments after the first slash.
unfoldable pub segments : String → List String
segments s = drop_first (split_path s)

abbrev pub AreSegments : List String → Type 0
AreSegments [] = Unit
AreSegments (s ∷ ss) = (is_segment s ≡ true) × AreSegments ss

abbrev prepend : String → List String → List String
prepend s [] = s ∷ []
prepend s (t ∷ ts) = (s ++ t) ∷ ts

split-append :
    (s r : String) (t : String) (ts : List String)
    → all_chars is_inner s ≡ true
    → split_path r ≡ t ∷ ts
    → split_path (s ++ r) ≡ (s ++ t) ∷ ts
unfolding split_path
split-append String.[] r t ts h q = rw (nil-append r, nil-append t) q
split-append (String.◌∷◌ c s) r t ts h q =
    let rest : split_path (s ++ r) ≡ (s ++ t) ∷ ts = split-append s r t ts (ground (arith, h)) q in
    let inner : (is_end c ≡ false) × (is_slash c ≡ false) = ground (arith, h) in
    rw (cons-append c s r, cons-append c s t, inner.0, inner.1, rest) refl

split_path-print_path : (ss : List String) → AreSegments ss → split_path (print_path ss) ≡ "" ∷ ss
unfolding print_path split_path
split_path-print_path [] h = refl
split_path-print_path (s ∷ ss) (h, hs) =
    rw
      (
        split-append s (print_path ss) "" ss (ground (arith, h)) (split_path-print_path ss hs),
        append-nil s,
      )
      refl

-- Segments that hold no slash and no end of a path come back from the text of the path.
pub segments-print_path : (ss : List String) → AreSegments ss → segments (print_path ss) ≡ ss
unfolding segments
segments-print_path ss h = ap drop_first (split_path-print_path ss h)
