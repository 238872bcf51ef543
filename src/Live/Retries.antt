-- ===== src/Live/Retries.antt =====
-- How often the player of client/src/pages/Live.tsx tries again.
use mathlib.Core.Path.{subst}
use dfchat.Common.{
  ℕ, ◌+◌, min, String, ◌≡◌, refl, ◌∙◌, Bool, true, false, not, Option, some, List, [], ◌∷◌, arith,
  all, ◌-◌, ◌&&◌, ap, sym, ltb, if◌then◌else◌, ◌==◌, length, inl,
}
use dfchat.Live.Player.{
  Player, max_retries, build_player, network_error, is_refused, on_error, on_playback,
}

-- One load after the other fails, without a refusal.
abbrev pub run_offline : List (Option ℕ) → Player → Player
run_offline [] p = p
run_offline (status ∷ statuses) p = run_offline statuses (on_error (network_error status) p)

-- One player after the other is refused, and its refresh gives a URL.
abbrev pub run_refused : List String → Player → Player
run_refused [] p = p
run_refused (url ∷ urls) p =
    run_refused urls (on_playback (inl url) (on_error (network_error (some 403)) p))

abbrev not_refused : Option ℕ → Bool
not_refused o = not (is_refused o)

module _ (status : Option ℕ) (p : Player) (plain : not_refused status ≡ true) where
  retries-on_error : (on_error (network_error status) p).network_retries ≡ p.network_retries + 1
  unfolding on_error
  retries-on_error = ground (arith, plain)

  loads-on_error :
      (on_error (network_error status) p).loads
      ≡ (if ltb max_retries (p.network_retries + 1) then p.loads else p.loads + 1)
  unfolding on_error
  loads-on_error = ground (arith, plain)

  error-on_error :
      (on_error (network_error status) p).error
      ≡ (if ltb max_retries (p.network_retries + 1) then some "主播离线（无法连接到直播流）" else p.error)
  unfolding on_error
  error-on_error = ground (arith, plain)

loads-run_offline :
    (statuses : List (Option ℕ)) (p : Player)
    → all not_refused statuses ≡ true
    → (run_offline statuses p).loads
      ≡ p.loads + min (length statuses) (max_retries - p.network_retries)
loads-run_offline [] p h = omega arith
loads-run_offline (status ∷ statuses) p h =
    let plain : not_refused status ≡ true = ground (arith, h) in
    let rest = loads-run_offline statuses (on_error (network_error status) p) (ground (arith, h)) in
    ground (arith, rest, retries-on_error status p plain, loads-on_error status p plain)

error-run_offline :
    (statuses : List (Option ℕ)) (p : Player)
    → all not_refused statuses ≡ true
    → (run_offline statuses p).error ≡ (
        if ltb 0 (length statuses) && ltb max_retries (p.network_retries + length statuses)
        then some "主播离线（无法连接到直播流）"
        else p.error)
error-run_offline [] p h = refl
error-run_offline (status ∷ statuses) p h =
    let plain : not_refused status ≡ true = ground (arith, h) in
    let rest = error-run_offline statuses (on_error (network_error status) p) (ground (arith, h)) in
    ground (arith, rest, retries-on_error status p plain, error-on_error status p plain)

refreshes-on_playback :
    (url : String) (p : Player) → (on_playback (inl url) p).refreshes ≡ p.refreshes
unfolding on_playback build_player
refreshes-on_playback url p = ground arith

refreshes-run_refused :
    (urls : List String) (p : Player) → (run_refused urls p).refreshes ≡ p.refreshes + length urls
unfolding on_error
refreshes-run_refused [] p = omega arith
refreshes-run_refused (url ∷ urls) p =
    let q = on_error (network_error (some 403)) p in
    let rest = refreshes-run_refused urls (on_playback (inl url) q) in
    let same = refreshes-on_playback url q in ground (arith, rest, same)

-- A player that was just made, on a stream that cannot be reached: however many loads fail, at most
-- eight are tried again, and the placeholder is shown exactly if more than eight failed. Where the
-- stream is refused there is no such end: every refusal asks for the detail again, as often as the
-- answer has a URL.
pub run_player :
    (p : Player) (statuses : List (Option ℕ)) (urls : List String)
    → (p.playback_url == "") ≡ false
    → all not_refused statuses ≡ true
    → let made = build_player p in
      ((run_offline statuses made).loads ≡ p.loads + min (length statuses) 8)
      × ((run_offline statuses made).error
          ≡ (if ltb 8 (length statuses) then some "主播离线（无法连接到直播流）" else p.error))
      × ((run_refused urls made).refreshes ≡ p.refreshes + length urls)
unfolding build_player
run_player p statuses urls there plain =
    let made = record p { network_retries = 0; built = p.built + 1 } in
    let becomes : build_player p ≡ made = ap (λ b. if b then p else made) there in
    subst
      (λ q.
        ((run_offline statuses q).loads ≡ p.loads + min (length statuses) 8)
        × ((run_offline statuses q).error
            ≡ (if ltb 8 (length statuses) then some "主播离线（无法连接到直播流）" else p.error))
        × ((run_refused urls q).refreshes ≡ p.refreshes + length urls))
      (sym becomes)
      (
        loads-run_offline statuses made plain,
        error-run_offline statuses made plain ∙ ground arith,
        refreshes-run_refused urls made,
      )
