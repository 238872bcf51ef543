-- ===== src/Tests/Sidebars.antt =====
-- Links, counts and dialogs of the sidebar.
use dfchat.Common.{String, ◌≡◌, refl, true, false, none, some, arith, ℕ}
use dfchat.Sidebar.{join_code, link_code, unread_badge}
use dfchat.Sidebar.Invites
use dfchat.View.Text.{trim_start, trim_end}
use dfchat.Markdown.Inline.{run_of, after_run}

join_code-link_example :
    (join_code "MZXW6YTBOI" ≡ "MZXW6YTBOI")
    × (join_code "https://app.dfchat.chat/join/MZXW6YTBOI" ≡ "MZXW6YTBOI")
join_code-link_example =
    Invites.join_code-link "https://app.dfchat.chat/join" "MZXW6YTBOI" "/" refl refl (omega arith)

-- A code of five characters is not read off its link.
short_code :
    join_code " https://app.dfchat.chat/join?code=ABCDE "
    ≡ "https://app.dfchat.chat/join?code=ABCDE"
unfolding join_code link_code run_of after_run trim_start trim_end
short_code = refl

abbrev tally : ℕ → String
tally n = "5"

badges :
    (unread_badge tally 100 false ≡ some "99+")
    × (unread_badge tally 0 true ≡ some "@")
    × (unread_badge tally 5 true ≡ some "@5")
    × (unread_badge tally 0 false ≡ none)
unfolding unread_badge
badges = (refl, refl, refl, refl)
