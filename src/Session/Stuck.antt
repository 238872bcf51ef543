-- ===== src/Session/Stuck.antt =====
-- `tryRefresh` of client/src/api/client.ts without a refresh token.
use dfchat.Common.{ℕ, suc, ◌≡◌, false, none, List, [], ◌∷◌}
use dfchat.Session.{Session, Outcome, retry, reject, settled}

-- how many requests were retried
abbrev pub retries : List Outcome → ℕ
retries [] = 0
retries (retry token req ∷ os) = suc (retries os)
retries (reject req ∷ os) = retries os

-- The promise has given null and is not cleared; so many refreshes were asked for, and so many requests
-- retried.
pub record IsStuck (asked retried : ℕ) (s : Session) : Type 0 where
  pub stuck : s.refresh_in_flight ≡ settled none false
  pub count : s.asked ≡ asked
  pub tried : retries s.outcomes ≡ retried
