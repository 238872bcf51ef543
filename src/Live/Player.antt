-- ===== src/Live/Player.antt =====
-- The player of client/src/pages/Live.tsx: what it does when hls.js reports an error. hls.js itself, the
-- video element and the browsers that play without hls.js are left out.
use dfchat.Common.{
  ℕ, ◌+◌, String, Bool, false, ◌||◌, Option, none, some, ltb, nat_eq, if◌then◌else◌, ◌or_else◌,
  ◌==◌, ◌⊎◌, inl, inr,
}

-- `networkRetries` and `playerError`, the URL that the detail of the room has, and how often a load was
-- put on the timer, the detail was asked for again, and a player was made.
pub record Player : Type 0 where
  pub network_retries : ℕ
  pub error : Option String
  pub playback_url : String
  pub loads : ℕ
  pub refreshes : ℕ
  pub built : ℕ

abbrev pub max_retries : ℕ
max_retries = 8

-- The effect for a URL: the old player goes, and a new one counts from 0.
unfoldable pub build_player : Player → Player
build_player p =
    if p.playback_url == "" then p else record p { network_retries = 0; built = p.built + 1 }

unfoldable pub on_manifest_loaded : Player → Player
on_manifest_loaded p = record p { network_retries = 0; error = none }

-- A fatal error: of the network with the status of the answer, of the media with whether the call that
-- recovers does not throw, or another.
pub data HlsError : Type 0 where
  network_error : (status : Option ℕ) → HlsError
  media_error : (recovers : Bool) → HlsError
  other_error : HlsError

abbrev pub is_refused : Option ℕ → Bool
is_refused none = false
is_refused (some code) = nat_eq code 401 || nat_eq code 403

abbrev pub retry : Player → Player
retry p =
    let more = record p { network_retries = p.network_retries + 1 } in
    if ltb max_retries (p.network_retries + 1)
    then record more { error = some "主播离线（无法连接到直播流）" }
    else record more { loads = p.loads + 1 }

unfoldable pub on_error : HlsError → Player → Player
on_error (network_error status) p =
    if is_refused status
    then record p { error = some "回话过期，正在刷新…"; refreshes = p.refreshes + 1 }
    else retry p
on_error (media_error recovers) p =
    if recovers then p else record p { error = some "播放器解码失败，请刷新页面" }
on_error other_error p = record p { error = some "播放器异常，请刷新页面" }

-- The answer to `refreshPlayback`, the URL or the message of an error: the effect runs for a new URL.
unfoldable pub on_playback : String ⊎ Option String → Player → Player
on_playback (inl url) p =
    if url == p.playback_url then p else build_player (record p { playback_url = url })
on_playback (inr why) p = record p { error = some (why or_else "直播间已下线") }
