-- ===== src/Api/Served.antt =====
-- Requests of client/src/api/client.ts that have a handler in server/internal.
pub mod People
pub mod Groups
pub mod Messages
pub mod Live
pub mod Admin
pub mod Client
use Prim.Native.String
use dfchat.Common.{all, ◌&&◌, String, Bool, true, false, List, [], ◌∷◌, ◌≡◌, arith}
use dfchat.Markdown.Inline.{is_blank}
use dfchat.Api.{Request}
use dfchat.Api.Url.{is_segment, AreSegments, segments, print_path, segments-print_path}
use dfchat.Api.Encode.{encode_uri_component, is_segment-encode_uri_component}
use dfchat.Api.Routes.{is_served}

-- The server finds a handler for the method and the path as it is written.
abbrev pub IsServed : Request → Type 0
IsServed r = is_served r.method (segments (print_path r.path)) ≡ true

abbrev pub AreServed : List Request → Type 0
AreServed [] = Unit
AreServed (r ∷ rs) = IsServed r × AreServed rs

-- The segments of the path are segments of a text, and a handler takes them.
abbrev pub is_routed : Request → Bool
is_routed r = all is_segment r.path && is_served r.method r.path

segments_all : (ss : List String) → all is_segment ss ≡ true → AreSegments ss
segments_all [] h = tt
segments_all (s ∷ ss) h = (ground (arith, h), segments_all ss (ground (arith, h)))

pub AreServed-routed : (rs : List Request) → all is_routed rs ≡ true → AreServed rs
AreServed-routed [] h = tt
AreServed-routed (r ∷ rs) h =
    let routed : (all is_segment r.path ≡ true) × (is_served r.method r.path ≡ true) =
      ground (arith, h) in
    (
      rw (segments-print_path r.path (segments_all r.path routed.0)) routed.1,
      AreServed-routed rs (ground (arith, h)),
    )

-- An id is encoded to a segment.
pub encoded_lem :
    (a : String)
    → is_segment a ≡ true
    → (is_segment (encode_uri_component a) ≡ true) × (is_blank (encode_uri_component a) ≡ false)
encoded_lem a h =
    let e = is_segment-encode_uri_component a (ground (arith, h)) in (e, ground (arith, e))
