-- ===== src/Session/Retry.antt =====
-- client/src/api/client.ts: requests that fail together share one refresh.
use mathlib.Core.List.{append_assoc, append-nil}
use mathlib.Core.Path.{subst}
use dfchat.Common.{
  ℕ, ◌+◌, String, ◌≡◌, refl, ap, sym, ◌∙◌, true, false, some, List, [], ◌∷◌, ◌++◌, map, Bool-cases,
  inl, inr, nat_eq, ◌==◌,
}
use dfchat.Session.{
  Session, Request, Outcome, retry, reject, idle, running, settled, truthy, resume, try_refresh,
  on_error, resume_all, on_refreshed, await_refresh, fails, step, run,
}

-- A request that was not retried and is no call of login, refresh and register.
abbrev pub fresh : ℕ → Request
fresh i = record { id = i; retried = false; is_auth_call = false }

abbrev pub again : ℕ → Request
again i = record { id = i; retried = true; is_auth_call = false }

-- all fail with 401
abbrev pub fail_all : (path : String) → List ℕ → Session → Session
fail_all path ids s = run (map (λ i. fails 401 (fresh i) path) ids) s

-- the outcomes when all are retried in their order, the latest first
abbrev pub retry_all : (token : String) → List ℕ → List Outcome → List Outcome
retry_all token [] os = os
retry_all token (i ∷ ids) os = retry_all token ids (retry token (again i) ∷ os)

abbrev refreshing : List Request → ℕ → Session → Session
refreshing reqs n s = record s { refresh_in_flight = running; waiting = reqs; asked = n }

fail_all-refreshing :
    (path : String) (ids : List ℕ) (reqs : List Request) (n : ℕ) (s : Session)
    → fail_all path ids (refreshing reqs n s) ≡ refreshing (reqs ++ map fresh ids) n s
unfolding run step on_error try_refresh
fail_all-refreshing path [] reqs n s = ap (λ l. refreshing l n s) (sym (append-nil reqs))
fail_all-refreshing path (i ∷ ids) reqs n s =
    fail_all-refreshing path ids (reqs ++ fresh i ∷ []) n s
    ∙ ap (λ l. refreshing l n s) (append_assoc reqs (fresh i ∷ []) (map fresh ids))

resume_all-fresh :
    (token path : String) (ids : List ℕ) (s : Session)
    → (token == "") ≡ false
    → resume_all (some token) path (map fresh ids) s
      ≡ record s { outcomes = retry_all token ids s.outcomes }
unfolding resume_all resume
resume_all-fresh token path [] s full = refl
resume_all-fresh token path (i ∷ ids) s full =
    ap (resume_all (some token) path (map fresh ids)) (rw full refl)
    ∙ resume_all-fresh token path ids (record s { outcomes = retry token (again i) ∷ s.outcomes })
        full

passed_on :
    (t : Session) (status j : ℕ) (path : String)
    → on_error status (again j) path t ≡ record t { outcomes = reject (again j) ∷ t.outcomes }
unfolding on_error
passed_on t status j path = elim (Bool-cases (nat_eq status 401)) [
  | inl hit ↦ rw hit refl
  | inr miss ↦ rw miss refl
]

fail_all-idle :
    (path : String) (i : ℕ) (ids : List ℕ) (s : Session)
    → s.refresh_in_flight ≡ idle
    → truthy s.refresh_token ≡ true
    → fail_all path (i ∷ ids) s ≡ refreshing (map fresh (i ∷ ids)) (s.asked + 1) s
unfolding run step on_error try_refresh
fail_all-idle path i ids s rest held =
    let start : try_refresh path (fresh i) s ≡ refreshing (fresh i ∷ []) (s.asked + 1) s =
      ap (λ r. await_refresh r path (fresh i) s) rest ∙ rw held refl in
    ap (fail_all path ids) start ∙ fail_all-refreshing path ids (fresh i ∷ []) (s.asked + 1) s

-- From one state to another: one refresh more was asked for, its tokens are stored, nothing waits, each
-- of the requests was retried with the new token, and a failure of one that was retried changes
-- nothing but that it is passed on.
abbrev pub AreRetried : (access refresh : String) → List ℕ → Session → Session → Type 0
AreRetried access refresh ids s t =
    (t.asked ≡ s.asked + 1)
    × (t.access_token ≡ some access)
    × (t.refresh_token ≡ some refresh)
    × (t.waiting ≡ [])
    × (t.outcomes ≡ retry_all access ids s.outcomes)
    × ((status j : ℕ) (path : String)
        → on_error status (again j) path t ≡ record t { outcomes = reject (again j) ∷ t.outcomes })

-- While no refresh is in flight and there is a refresh token: requests that fail with 401 before the
-- refresh ends, one or more, ask for one refresh among them, and when it gives tokens, the access token
-- not empty, these are stored and each request is retried once with the new access token, in their
-- order. What fails once it was retried is passed on and changes nothing else, whatever its status.
pub on_refreshed-fail_all :
    (i : ℕ) (ids : List ℕ) (path later access refresh : String) (s : Session)
    → s.refresh_in_flight ≡ idle
    → truthy s.refresh_token ≡ true
    → (access == "") ≡ false
    → AreRetried access refresh
        (i ∷ ids)
        s
        (on_refreshed (some (access, refresh)) later (fail_all path (i ∷ ids) s))
unfolding on_refreshed
on_refreshed-fail_all i ids path later access refresh s rest held full =
    let stored : Session = record s {
      access_token = some access;
      refresh_token = some refresh;
      refresh_in_flight = settled (some access) true;
      waiting = [];
      asked = s.asked + 1;
    } in
    let last : Session = record stored { outcomes = retry_all access (i ∷ ids) s.outcomes } in
    let same : on_refreshed (some (access, refresh)) later (fail_all path (i ∷ ids) s) ≡ last =
      ap (on_refreshed (some (access, refresh)) later) (fail_all-idle path i ids s rest held)
      ∙ resume_all-fresh access later (i ∷ ids) stored full in
    subst (AreRetried access refresh (i ∷ ids) s) (sym same)
      (refl, refl, refl, refl, refl, passed_on last)
