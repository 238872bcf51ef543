-- ===== src/Session.antt =====
-- The session of client/src/api/client.ts: the tokens, the refresh that requests share, and what the
-- response interceptor does with a request that fails. An `await` ends in an event of its own.
pub mod Retry
pub mod Stuck
use dfchat.Common.{
  ℕ, ◌+◌, String, Bool, true, false, not, ◌&&◌, ◌||◌, Option, none, some, List, [], ◌∷◌, ◌++◌,
  nat_eq, if◌then◌else◌, ◌==◌,
}
use dfchat.Seq.{Saved, absent}

-- A failed request, by a number: whether it was retried, and whether its url is one of login, refresh and register.
pub record Request : Type 0 where
  pub id : ℕ
  pub retried : Bool
  pub is_auth_call : Bool

pub data Outcome : Type 0 where
  retry : String → Request → Outcome
  reject : Request → Outcome

-- `refreshInFlight`: null, a promise that runs, or one that has given a token or null; of the last the
-- flag says whether the timeout of `finally` is still to clear it.
pub data Refresh : Type 0 where
  idle running : Refresh
  settled : Option String → (clears : Bool) → Refresh

-- The tokens and the saved sequence numbers in localStorage, `sessionBouncePending`, how often the page
-- was sent to /login, `refreshInFlight` with the requests that wait for it, how often a refresh was
-- asked for, and what became of the failed requests, the latest first.
pub record Session : Type 0 where
  pub access_token : Option String
  pub refresh_token : Option String
  pub stored_last : Saved
  pub stored_read : Saved
  pub session_bounce_pending : Bool
  pub bounces : ℕ
  pub refresh_in_flight : Refresh
  pub waiting : List Request
  pub asked : ℕ
  pub outcomes : List Outcome

-- A token that is null or empty counts as none.
abbrev pub truthy : Option String → Bool
truthy none = false
truthy (some t) = not (t == "")

-- `bounceToLogin`, up to its timer
unfoldable pub bounce_to_login : Session → Session
bounce_to_login s = if s.session_bounce_pending then s else record s {
  access_token = none;
  refresh_token = none;
  stored_last = absent;
  stored_read = absent;
  session_bounce_pending = true;
}

-- and its timer
unfoldable pub on_bounce_timer : Session → Session
on_bounce_timer s = record s { session_bounce_pending = false; bounces = s.bounces + 1 }

-- The rest of the interceptor after `await tryRefresh()`, at a page with the path.
unfoldable pub resume : Option String → (path : String) → Request → Session → Session
resume none path req s =
    let away = path == "/login" || path == "/register" in
    let t = if away then s else bounce_to_login s in record t { outcomes = reject req ∷ t.outcomes }
resume (some token) path req s =
    let away = path == "/login" || path == "/register" in
    let t = if away then s else bounce_to_login s in
    if token == ""
    then record t { outcomes = reject req ∷ t.outcomes }
    else record s { outcomes = retry token (record req { retried = true }) ∷ s.outcomes }

abbrev pub await_refresh : Refresh → (path : String) → Request → Session → Session
await_refresh idle path req s =
    if truthy s.refresh_token
    then record s { refresh_in_flight = running; asked = s.asked + 1; waiting = req ∷ [] }
    else resume none path req (record s { refresh_in_flight = settled none false })
await_refresh running path req s = record s { waiting = s.waiting ++ req ∷ [] }
await_refresh (settled token clears) path req s = resume token path req s

-- `await tryRefresh()`: a request waits for the refresh that runs, or for one that it starts. Without a
-- refresh token the new promise gives null, and as `finally` is not reached nothing clears it.
unfoldable pub try_refresh : (path : String) → Request → Session → Session
try_refresh path req s = await_refresh s.refresh_in_flight path req s

-- The interceptor of responses that fail.
unfoldable pub on_error : (status : ℕ) → Request → (path : String) → Session → Session
on_error status req path s =
    if nat_eq status 401 && (not req.retried && not req.is_auth_call)
    then try_refresh path req s
    else record s { outcomes = reject req ∷ s.outcomes }

unfoldable pub resume_all : Option String → (path : String) → List Request → Session → Session
resume_all token path [] s = s
resume_all token path (req ∷ reqs) s = resume_all token path reqs (resume token path req s)

abbrev pub end_refresh : Refresh → Option (String × String) → (path : String) → Session → Session
end_refresh running none path s =
    resume_all none path s.waiting
      (record s { refresh_in_flight = settled none true; waiting = [] })
end_refresh running (some (access, refresh)) path s =
    resume_all (some access) path s.waiting (record s {
      access_token = some access;
      refresh_token = some refresh;
      refresh_in_flight = settled (some access) true;
      waiting = [];
    })
end_refresh idle answer path s = s
end_refresh (settled token clears) answer path s = s

-- The refresh that runs gets the two tokens of the answer, or throws.
unfoldable pub on_refreshed : Option (String × String) → (path : String) → Session → Session
on_refreshed answer path s = end_refresh s.refresh_in_flight answer path s

abbrev pub cleared_refresh : Refresh → Refresh
cleared_refresh idle = idle
cleared_refresh running = running
cleared_refresh (settled token clears) = if clears then idle else settled token clears

-- The timeout of `finally`.
unfoldable pub on_cleared : Session → Session
on_cleared s = record s { refresh_in_flight = cleared_refresh s.refresh_in_flight }

-- client/src/store/userStore.ts: the user, by the id, and the token, beside localStorage.
pub record UserState : Type 0 where
  pub user : Option String
  pub access_token : Option String
  pub session : Session

unfoldable pub set_session : (user access_token : String) → Option String → UserState → UserState
set_session user access refresh s = record s {
  user = some user;
  access_token = some access;
  session = record s.session {
    access_token = some access;
    refresh_token = elim refresh [
      | none ↦ s.session.refresh_token
      | some t ↦ if t == "" then s.session.refresh_token else some t
    ];
  };
}

unfoldable pub clear : UserState → UserState
clear s = record s {
  user = none;
  access_token = none;
  session = record s.session { access_token = none; refresh_token = none };
}

-- What happens to the session: a request fails, the refresh ends, its timeout and the timer of the
-- bounce fire, somebody signs in or out.
pub data Event : Type 0 where
  fails : (status : ℕ) → Request → (path : String) → Event
  refreshed : Option (String × String) → (path : String) → Event
  cleared bounced : Event
  signs_in : (access_token : String) → Option String → Event
  signs_out : Event

-- `setSession` and `clear` as the session sees them
abbrev pub signed_in : String → Option String → Session → Session
signed_in access refresh s =
    (set_session "" access refresh
      (record { user = none; access_token = none; session = s })).session

abbrev pub signed_out : Session → Session
signed_out s = (clear (record { user = none; access_token = none; session = s })).session

unfoldable pub step : Event → Session → Session
step (fails status req path) s = on_error status req path s
step (refreshed answer path) s = on_refreshed answer path s
step cleared s = on_cleared s
step bounced s = on_bounce_timer s
step (signs_in access refresh) s = signed_in access refresh s
step signs_out s = signed_out s

unfoldable pub run : List Event → Session → Session
run [] s = s
run (e ∷ es) s = run es (step e s)
