-- ===== src/View/Throttle.antt =====
-- How often client/src/components/ChatView.tsx tells the server that the user types.
use mathlib.Core.Path.{subst}
use dfchat.Common.{
  sym, ℕ, ◌+◌, ◌≤◌, ◌≡◌, refl, Option, none, some, List, [], ◌∷◌, ltb, arith, ◌⊎◌, Bool-cases,
  Option-cases, inl, inr,
}
use dfchat.View.Opening.{Context}
use dfchat.View.Typing.{
  Signal, typing_start, typing_stop, TypingPing, ping_of, send_typing_ping, on_blur,
}

-- A key that is pressed in the text field, or the loss of the focus, in a conversation.
pub data Touch : Type 0 where
  key : (now : ℕ) → Option Context → Touch
  blur : (now : ℕ) → Option Context → Touch

abbrev touched : Touch → ℕ → ℕ × Option TypingPing
touched (key now ctx) last = send_typing_ping ctx now last
touched (blur now ctx) last = on_blur ctx last

abbrev pub then_sent : ℕ → Option TypingPing → List (ℕ × TypingPing) → List (ℕ × TypingPing)
then_sent now none rest = rest
then_sent now (some p) rest = (now, p) ∷ rest

-- The pings that go out, with the time of each.
unfoldable pub pings : List Touch → ℕ → List (ℕ × TypingPing)
pings [] last = []
pings (key now ctx ∷ ts) last =
    let out = send_typing_ping ctx now last in then_sent now out.1 (pings ts out.0)
pings (blur now ctx ∷ ts) last = let out = on_blur ctx last in then_sent now out.1 (pings ts out.0)

-- Since a start, three seconds go by or a stop is sent before the next start.
abbrev pub IsThrottled : ℕ → List (ℕ × TypingPing) → Type 0
IsThrottled last [] = Unit {0}
IsThrottled last ((t, p) ∷ ps) = elim p.signal [
  | typing_start ↦ (last + 3000 ≤ t) × IsThrottled t ps
  | typing_stop ↦ IsThrottled 0 ps
]

ping_of-signal :
    (s : Signal) (ctx : Context) (p : TypingPing) → ping_of s ctx ≡ some p → p.signal ≡ s
ping_of-signal s ctx p e = ground (arith, e)

-- A key sends nothing, or a start three seconds after the last.
send_typing_ping_cases :
    (ctx : Option Context) (now last : ℕ)
    → (send_typing_ping ctx now last ≡ (last, none))
      ⊎ ((p : TypingPing) × (send_typing_ping ctx now last ≡ (now, some p))
          × (p.signal ≡ typing_start)
          × (last + 3000 ≤ now))
unfolding send_typing_ping
send_typing_ping_cases none now last = inl refl
send_typing_ping_cases (some ctx) now last = elim (Option-cases (ping_of typing_start ctx)) [
  | inl e ↦ inl (rw (e, send_typing_ping) refl)
  | inr (p, e) ↦ elim (Bool-cases (ltb now (last + 3000))) [
    | inl soon ↦ inl (rw (e, soon, send_typing_ping) refl)
    | inr late ↦ inr (
      p,
      rw (e, late, send_typing_ping) refl,
      ping_of-signal typing_start ctx p e,
      ground (arith, late),
    )
  ]
]

on_blur_cases :
    (ctx : Option Context) (last : ℕ)
    → (on_blur ctx last ≡ (last, none))
      ⊎ ((p : TypingPing) × (on_blur ctx last ≡ (0, some p)) × (p.signal ≡ typing_stop))
unfolding on_blur
on_blur_cases none last = inl refl
on_blur_cases (some ctx) last = elim (Option-cases (ping_of typing_stop ctx)) [
  | inl e ↦ inl (rw (e, on_blur) refl)
  | inr (p, e) ↦ inr (p, rw (e, on_blur) refl, ping_of-signal typing_stop ctx p e)
]

-- Over any keys and losses of the focus, in whatever conversations, a start that is sent to the server
-- comes at least three seconds after the one before, or after a stop.
pub pings-IsThrottled : (ts : List Touch) (last : ℕ) → IsThrottled last (pings ts last)
unfolding pings
pings-IsThrottled [] last = tt
pings-IsThrottled (key now ctx ∷ ts) last =
    let family =
      λ (out : ℕ × Option TypingPing). IsThrottled last (then_sent now out.1 (pings ts out.0)) in
    elim (send_typing_ping_cases ctx now last) [
      | inl e ↦ subst family (sym e) (pings-IsThrottled ts last)
      | inr (p, e, start, late) ↦ subst family (sym e) (rw start (late, pings-IsThrottled ts now))
    ]
pings-IsThrottled (blur now ctx ∷ ts) last =
    let family =
      λ (out : ℕ × Option TypingPing). IsThrottled last (then_sent now out.1 (pings ts out.0)) in
    elim (on_blur_cases ctx last) [
      | inl e ↦ subst family (sym e) (pings-IsThrottled ts last)
      | inr (p, e, stop) ↦ subst family (sym e) (rw stop (pings-IsThrottled ts 0))
    ]
