-- ===== src/Tests/Searches.antt =====
-- Marks in a result.
use Prim.Native.Char.{Char}
use dfchat.Common.{◌≡◌, refl, [], ◌∷◌}
use dfchat.Search.{plain, marked, highlight, highlight_from, take, drop}
use dfchat.Markdown.Inline.{strip}
use dfchat.Search.Marks.{join}
use dfchat.Search.Unmarked
use dfchat.Search.Unmarked.{AreUnmarked}
use dfchat.Search.Matches.{AreMatches, map_chars}

abbrev same_char : Char → Char
same_char c = c

highlight-AreUnmarked_example :
    (join (highlight (map_chars same_char) "a banana" "an") ≡ "a banana")
    × AreMatches (map_chars same_char) "an" (highlight (map_chars same_char) "a banana" "an")
    × AreUnmarked same_char "an" (highlight (map_chars same_char) "a banana" "an")
highlight-AreUnmarked_example = Unmarked.highlight-AreUnmarked same_char "a banana" "an" refl

marks_of_a_banana :
    highlight (map_chars same_char) "a banana" "an"
    ≡ plain "a b" ∷ marked "an" ∷ marked "an" ∷ plain "a" ∷ []
unfolding highlight highlight_from take drop strip
marks_of_a_banana = refl
