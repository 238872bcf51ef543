-- ===== src/Api/Served/Client.antt =====
-- client/src/api/client.ts: all requests of the client against the routes of server/internal.
use Prim.Native.String.{◌++◌}
use text.Mathlib.TextLemmas.{nil-append, cons-append}
use dfchat.Common.{ℕ, String, Bool, true, false, Option, List, [], ◌∷◌, ◌≡◌, refl, ◌∙◌, ap}
use dfchat.Markdown.Inline.{strip}
use dfchat.Api.{get, v1}
use dfchat.Api.Url.{is_segment, segments, print_path, segments-print_path}
use dfchat.Api.Routes.{is_served, routes, matches, same_length}
use dfchat.Api.Messages.{SendBody}
use dfchat.Api.Admin.{evidence_path}
use dfchat.Api.Calls.{
  accounts_requests, friends_requests, session_requests, groups_requests, messages_requests,
  rooms_requests, broadcasts_requests, admin_requests,
}
use dfchat.Api.Served.{AreServed}
use dfchat.Api.Served.People.{
  accounts_requests-AreServed, friends_requests-AreServed, session_requests-AreServed,
}
use dfchat.Api.Served.Groups.{groups_requests-AreServed}
use dfchat.Api.Served.Messages.{messages_requests-AreServed}
use dfchat.Api.Served.Live.{rooms_requests-AreServed, broadcasts_requests-AreServed}
use dfchat.Api.Served.Admin.{admin_requests-AreServed}

print_path-v1 :
    (p : List String)
    → print_path (v1 p)
      ≡ String.◌∷◌ "/" (
          String.◌∷◌ "a" (
            String.◌∷◌ "p"
              (String.◌∷◌ "i" (String.◌∷◌ "/" (String.◌∷◌ "v" (String.◌∷◌ "1" (print_path p)))))))
unfolding print_path
print_path-v1 p =
    let r = print_path p in
    let x = String.◌∷◌ "/" ("v1" ++ r) in
    let version : "v1" ++ r ≡ String.◌∷◌ "v" (String.◌∷◌ "1" r) =
      cons-append "v" "1" r
      ∙ ap (String.◌∷◌ "v") (cons-append "1" "" r ∙ ap (String.◌∷◌ "1") (nil-append r)) in
    let api : "api" ++ x ≡ String.◌∷◌ "a" (String.◌∷◌ "p" (String.◌∷◌ "i" x)) =
      cons-append "a" "pi" x
      ∙ ap (String.◌∷◌ "a") (
          cons-append "p" "i" x
          ∙ ap (String.◌∷◌ "p") (cons-append "i" "" x ∙ ap (String.◌∷◌ "i") (nil-append x))) in
    ap (String.◌∷◌ "/")
      (api ∙ ap (λ s. String.◌∷◌ "a" (String.◌∷◌ "p" (String.◌∷◌ "i" (String.◌∷◌ "/" s)))) version)

evidence_path-print_path : (p : List String) → evidence_path (print_path (v1 p)) ≡ print_path p
unfolding evidence_path strip
evidence_path-print_path p = ap evidence_path (print_path-v1 p)

-- The images of evidence are asked for outside the routes.
abbrev pub evidence : (day name : String) → List String
evidence day name = "admin" ∷ "live" ∷ "evidence" ∷ day ∷ name ∷ []

evidence-served :
    (day name : String)
    → is_segment day ≡ true
    → is_segment name ≡ true
    → is_served get (segments (evidence_path (print_path (v1 (evidence day name))))) ≡ false
unfolding is_served routes same_length matches
evidence-served day name hd hn =
    rw
      (
        evidence_path-print_path (evidence day name),
        segments-print_path (evidence day name) (refl, (refl, (refl, (hd, (hn, tt))))),
      )
      refl

-- For any ids that are one segment of a path, not empty and without / and ?, and any texts, numbers and
-- flags: each request of the functions of api/client.ts but `uploadBlob`, the refresh of the tokens
-- and the question for TURN servers have a handler on the server; an image of evidence is asked for at
-- a path that has none.
pub requests-AreServed :
    (a d t : String) (o : Option String) (n : ℕ) (m : Option ℕ) (f : Option Bool) (b : Bool)
    (l : List String) (body : SendBody)
    → is_segment a ≡ true
    → is_segment d ≡ true
    → (AreServed (accounts_requests a t o)
        × AreServed (session_requests t)
        × AreServed (friends_requests a t)
        × AreServed (groups_requests a d t o n f l)
        × AreServed (messages_requests a d t o n b body)
        × AreServed (rooms_requests a t o m b)
        × AreServed (broadcasts_requests a d t o n m f b)
        × AreServed (admin_requests a t o n m f b))
      × (is_served get (segments (evidence_path (print_path (v1 (evidence a d))))) ≡ false)
requests-AreServed a d t o n m f b l body ha hd = (
  (
    accounts_requests-AreServed a t o ha,
    session_requests-AreServed t,
    friends_requests-AreServed a t ha,
    groups_requests-AreServed a d t o n f l ha hd,
    messages_requests-AreServed a d t o n b body ha hd,
    rooms_requests-AreServed a t o m b ha,
    broadcasts_requests-AreServed a d t o n m f b ha hd,
    admin_requests-AreServed a t o n m f b ha,
  ),
  evidence-served a d ha hd,
)
