-- ===== src/Sidebar/Invites.antt =====
-- client/src/components/FriendSidebar.tsx: the code of an invite is read off a link.
use Prim.Native.Char.{Char}
use Prim.Native.String.{◌++◌}
use text.Mathlib.TextLemmas.{nil-append, cons-append}
use dfchat.Common.{
  ◌≤◌, String, Bool, true, false, ◌≡◌, refl, none, some, arith, Bool-cases, inl, inr,
}
use dfchat.View.Text.{is_space, trim, trim_start, trim_end}
use dfchat.Markdown.Inline.{run_of, after_run}
use dfchat.Register.{size, all_chars}
use dfchat.Sidebar.{is_code, is_mark, ends_with_code, link_code, join_code}

mark-not-code : (m : Char) → is_mark m ≡ true → (is_code m ≡ false) × (is_space m ≡ false)
mark-not-code m h = ground (arith, h)

code-not-mark : (c : Char) → is_code c ≡ true → (is_mark c ≡ false) × (is_space c ≡ false)
code-not-mark c h = ground (arith, h)

run_of-all :
    (p : Char → Bool) (s : String) → all_chars p s ≡ true → (run_of p s ≡ s) × (after_run p s ≡ "")
unfolding run_of after_run
run_of-all p String.[] h = (refl, refl)
run_of-all p (String.◌∷◌ c s) h =
    let first : p c ≡ true = ground (arith, h) in
    let rest = run_of-all p s (ground (arith, h)) in
    (rw (first, rest.0) refl, rw (first, rest.1) refl)

all_chars-mark :
    (t s : String) (m : Char)
    → is_space m ≡ false
    → all_chars is_space (t ++ String.◌∷◌ m s) ≡ false
all_chars-mark String.[] s m h = rw (nil-append (String.◌∷◌ m s), h) refl
all_chars-mark (String.◌∷◌ c t) s m h =
    rw (cons-append c t (String.◌∷◌ m s)) (ground (arith, all_chars-mark t s m h))

after_run-mark :
    (t s : String) (m : Char)
    → is_mark m ≡ true
    → all_chars is_space (after_run is_code (t ++ String.◌∷◌ m s)) ≡ false
unfolding after_run
after_run-mark String.[] s m h =
    let other = mark-not-code m h in rw (nil-append (String.◌∷◌ m s), other.0, other.1) refl
after_run-mark (String.◌∷◌ c t) s m h =
    rw (cons-append c t (String.◌∷◌ m s)) (elim (Bool-cases (is_code c)) [
      | inl e ↦ rw e (after_run-mark t s m h)
      | inr e ↦ rw e (ground (arith, all_chars-mark t s m (mark-not-code m h).1))
    ])

ends_with_code-whole :
    (s : String) → all_chars is_code s ≡ true → 6 ≤ size s → ends_with_code s ≡ true
ends_with_code-whole s h long =
    let all = run_of-all is_code s h in rw (all.0, all.1) (ground (arith, long))

link_code-link :
    (t s : String) (m : Char)
    → is_mark m ≡ true
    → all_chars is_code s ≡ true
    → 6 ≤ size s
    → link_code (t ++ String.◌∷◌ m s) ≡ some s
unfolding link_code
link_code-link String.[] s m mark h long =
    rw
      (nil-append (String.◌∷◌ m s), mark, ends_with_code-whole s h long, (run_of-all is_code s h).0)
      refl
link_code-link (String.◌∷◌ c t) s m mark h long =
    let no_end : ends_with_code (t ++ String.◌∷◌ m s) ≡ false =
      ground (arith, after_run-mark t s m mark) in
    rw (cons-append c t (String.◌∷◌ m s)) (ground (arith, no_end, link_code-link t s m mark h long))

link_code-bare : (s : String) → all_chars is_code s ≡ true → link_code s ≡ none
unfolding link_code
link_code-bare String.[] h = refl
link_code-bare (String.◌∷◌ c s) h =
    let other = code-not-mark c (ground (arith, h)) in
    rw other.0 (link_code-bare s (ground (arith, h)))

trim_end-code : (s : String) → all_chars is_code s ≡ true → trim_end s ≡ s
unfolding trim_end
trim_end-code String.[] h = refl
trim_end-code (String.◌∷◌ c s) h =
    let other = code-not-mark c (ground (arith, h)) in
    rw (trim_end-code s (ground (arith, h))) (ground (arith, other.1))

trim-code : (s : String) → all_chars is_code s ≡ true → trim s ≡ s
unfolding trim_start
trim-code String.[] h = trim_end-code String.[] h
trim-code (String.◌∷◌ c s) h =
    let other = code-not-mark c (ground (arith, h)) in rw other.1 (trim_end-code (String.◌∷◌ c s) h)

-- A code of at least six letters and digits is found: alone, and at the end of any text after a slash or
-- an equality sign.
pub join_code-link :
    (t s : String) (m : Char)
    → is_mark m ≡ true
    → all_chars is_code s ≡ true
    → 6 ≤ size s
    → (join_code s ≡ s) × (join_code (t ++ String.◌∷◌ m s) ≡ s)
unfolding join_code
join_code-link t s m mark h long =
    (rw (link_code-bare s h) (trim-code s h), rw (link_code-link t s m mark h long) (trim-code s h))
