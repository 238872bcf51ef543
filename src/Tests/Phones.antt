-- ===== src/Tests/Phones.antt =====
-- What the list of devices calls a phone.
use dfchat.Common.{String, ◌≡◌, refl}
use dfchat.Settings.{short_user_agent, system_of, app_of}
use dfchat.Markdown.Inline.{strip}

abbrev lowered : String → String
lowered ua = ua

phones :
    (short_user_agent lowered "mozilla/5.0 (linux; android 14; pixel 8) chrome/125.0"
      ≡ "Linux · Chrome")
    × (short_user_agent lowered
          "mozilla/5.0 (iphone; cpu iphone os 17_4 like mac os x) safari/604.1"
        ≡ "macOS · Safari")
unfolding short_user_agent system_of app_of strip
phones = (refl, refl)
