-- ===== src/View/Tally.antt =====
-- Reactions count their users, before and after a click in client/src/components/ChatView.tsx.
use dfchat.Common.{
  ℕ, ◌-◌, ◌≤◌, String, ◌≡◌, refl, ap, ◌∙◌, sym, Bool, true, false, not, ◌&&◌, ◌||◌, Option, none,
  some, List, [], ◌∷◌, ◌++◌, arith, nat_eq, if◌then◌else◌, ◌or_else◌, ◌==◌, eq_iff, find, any, keep,
  length, length-append, Bool-cases, inl, inr,
}
use dfchat.Types.{ReactionCount}
use dfchat.View.Reactions.{is_emoji, includes, splice, replace_at, with_user, others, is_empty}

-- whether the user has reacted with the emoji
abbrev pub reacted : ℕ → String → List ReactionCount → Bool
reacted u emoji rs = elim (find (is_emoji emoji) rs) [
  | none ↦ false
  | some r ↦ includes u r.user_ids
]

abbrev pub IsDistinct : List ℕ → Type 0
IsDistinct [] = Unit {0}
IsDistinct (u ∷ us) = (any (nat_eq u) us ≡ false) × IsDistinct us

abbrev pub users : ReactionCount → List ℕ
users r = r.user_ids or_else []

-- An entry counts its users, none twice and at least one.
abbrev pub IsCount : ReactionCount → Type 0
IsCount r = (r.count ≡ length (users r)) × IsDistinct (users r) × (is_empty (users r) ≡ false)

abbrev pub IsTally : List ReactionCount → Type 0
IsTally [] = Unit {0}
IsTally (r ∷ rs) = IsCount r × (find (is_emoji r.emoji) rs ≡ none) × IsTally rs

pub any-keep :
    (me u : ℕ) (us : List ℕ)
    → any (nat_eq u) (keep (λ v. not (nat_eq v me)) us) ≡ (not (nat_eq u me) && any (nat_eq u) us)
any-keep me u [] = ground arith
any-keep me u (v ∷ us) = ground (arith, any-keep me u us)

pub any-append :
    (u : ℕ) (us vs : List ℕ) → any (nat_eq u) (us ++ vs) ≡ (any (nat_eq u) us || any (nat_eq u) vs)
any-append u [] vs = refl
any-append u (v ∷ us) vs = ground (arith, any-append u us vs)

IsDistinct-keep :
    (me : ℕ) (us : List ℕ) → IsDistinct us → IsDistinct (keep (λ v. not (nat_eq v me)) us)
IsDistinct-keep me [] h = tt
IsDistinct-keep me (u ∷ us) (new, h) =
    ground (arith, IsDistinct-keep me us h, any-keep me u us, new)

keep_absent :
    (me : ℕ) (us : List ℕ) → any (nat_eq me) us ≡ false → keep (λ v. not (nat_eq v me)) us ≡ us
keep_absent me [] h = refl
keep_absent me (u ∷ us) h = ground (arith, keep_absent me us)

length-keep_one :
    (me : ℕ) (us : List ℕ)
    → IsDistinct us
    → any (nat_eq me) us ≡ true
    → length (keep (λ v. not (nat_eq v me)) us) ≡ length us - 1
length-keep_one me [] h e = cc
length-keep_one me (u ∷ us) (new, h) e = elim (Bool-cases (nat_eq u me)) [
  | inl same ↦
      let absent : any (nat_eq me) us ≡ false = ground (arith, new) in
      rw same (omega (arith, ap length (keep_absent me us absent)))
  | inr other ↦
      let there : any (nat_eq me) us ≡ true = ground arith in
      rw other (ground (arith, length-keep_one me us h there, some_in us there))
]
  where
    some_in : (us : List ℕ) → any (nat_eq me) us ≡ true → 1 ≤ length us
    some_in [] h = cc
    some_in (u ∷ us) h = omega arith

IsDistinct-snoc :
    (me : ℕ) (us : List ℕ) → IsDistinct us → any (nat_eq me) us ≡ false → IsDistinct (us ++ me ∷ [])
IsDistinct-snoc me [] h e = (refl, tt)
IsDistinct-snoc me (u ∷ us) (new, h) e =
    ground (arith, IsDistinct-snoc me us h, any-append u us (me ∷ []), new)

pub includes-any : (u : ℕ) (o : Option (List ℕ)) → includes u o ≡ any (nat_eq u) (o or_else [])
includes-any u none = refl
includes-any u (some us) = refl

is_empty-snoc : (me : ℕ) (us : List ℕ) → is_empty (us ++ me ∷ []) ≡ false
is_empty-snoc me [] = refl
is_empty-snoc me (u ∷ us) = refl

pub with_user-IsCount :
    (me : ℕ) (r : ReactionCount)
    → IsCount r
    → includes me r.user_ids ≡ false
    → IsCount (with_user me r)
with_user-IsCount me r (counted, once, some_one) e = (
  omega (arith, counted, length-append (users r) (me ∷ [])),
  IsDistinct-snoc me (users r) once (sym (includes-any me r.user_ids) ∙ e),
  is_empty-snoc me (users r),
)

pub without-IsCount :
    (me : ℕ) (r : ReactionCount)
    → IsCount r
    → includes me r.user_ids ≡ true
    → is_empty (others me r) ≡ false
    → IsCount (record r { count = r.count - 1; user_ids = some (others me r) })
without-IsCount me r (counted, once, some_one) e left = (
  omega (arith, counted, length-keep_one me (users r) once (sym (includes-any me r.user_ids) ∙ e)),
  IsDistinct-keep me (users r) once,
  left,
)

pub find-splice :
    (e j : String) (rs : List ReactionCount)
    → IsTally rs
    → find (is_emoji j) (splice e rs) ≡ (if e == j then none else find (is_emoji j) rs)
unfolding splice
find-splice e j [] h = ground arith
find-splice e j (r ∷ rs) (count, new, h) = elim (Bool-cases (r.emoji == e)) [
  | inl hit ↦ elim (Bool-cases (e == j)) [
    | inl same ↦
        let eq : r.emoji ≡ j = ground (arith, eq_iff r.emoji e, eq_iff e j) in
        rw (hit, same) (ap (λ i. find (is_emoji i) rs) (sym eq) ∙ new)
    | inr other ↦ rw (hit, other) (ground (arith, eq_iff r.emoji e, eq_iff e j, eq_iff r.emoji j))
  ]
  | inr miss ↦
      rw miss (ground (arith, eq_iff r.emoji e, eq_iff e j, eq_iff r.emoji j, find-splice e j rs h))
]

pub find-replace_at :
    (e j : String) (new r : ReactionCount) (rs : List ReactionCount)
    → new.emoji ≡ e
    → find (is_emoji e) rs ≡ some r
    → find (is_emoji j) (replace_at e new rs) ≡ (if e == j then some new else find (is_emoji j) rs)
unfolding replace_at
find-replace_at e j new r [] named at = cc
find-replace_at e j new r (s ∷ rs) named at = ground (
  arith,
  eq_iff s.emoji e,
  eq_iff e j,
  eq_iff s.emoji j,
  eq_iff new.emoji j,
  find-replace_at e j new r rs named,
)

pub splice-IsTally : (e : String) (rs : List ReactionCount) → IsTally rs → IsTally (splice e rs)
unfolding splice
splice-IsTally e [] h = tt
splice-IsTally e (r ∷ rs) (count, new, h) = elim (Bool-cases (r.emoji == e)) [
  | inl hit ↦ rw hit h
  | inr miss ↦
      rw miss (count, ground (arith, find-splice e r.emoji rs h, new), splice-IsTally e rs h)
]

pub replace_at-IsTally :
    (e : String) (new r : ReactionCount) (rs : List ReactionCount)
    → new.emoji ≡ e
    → IsCount new
    → find (is_emoji e) rs ≡ some r
    → IsTally rs
    → IsTally (replace_at e new rs)
unfolding replace_at
replace_at-IsTally e new r [] named c at h = tt
replace_at-IsTally e new r (s ∷ rs) named c at (count, once, h) = elim (Bool-cases (s.emoji == e)) [
  | inl hit ↦
      let same : s.emoji ≡ new.emoji = ground (arith, eq_iff s.emoji e) in
      rw hit (c, ap (λ i. find (is_emoji i) rs) (sym same) ∙ once, h)
  | inr miss ↦
      let later : find (is_emoji e) rs ≡ some r = ground arith in
      rw miss (
        count,
        ground (
          arith,
          find-replace_at e s.emoji new r rs named later,
          eq_iff e s.emoji,
          eq_iff s.emoji e,
        ),
        replace_at-IsTally e new r rs named c later h,
      )
]

pub find-snoc :
    (j : String) (new : ReactionCount) (rs : List ReactionCount)
    → find (is_emoji j) (rs ++ new ∷ []) ≡ (elim (find (is_emoji j) rs) [
      | some r ↦ some r
      | none ↦ (if new.emoji == j then some new else none)
    ])
find-snoc j new [] = refl
find-snoc j new (r ∷ rs) = ground (arith, find-snoc j new rs)

pub snoc-IsTally :
    (new : ReactionCount) (rs : List ReactionCount)
    → IsCount new
    → find (is_emoji new.emoji) rs ≡ none
    → IsTally rs
    → IsTally (rs ++ new ∷ [])
snoc-IsTally new [] c e h = (c, refl, tt)
snoc-IsTally new (r ∷ rs) c e (count, once, h) = (
  count,
  ground
      (arith, find-snoc r.emoji new rs, once, eq_iff r.emoji new.emoji, eq_iff new.emoji r.emoji),
  snoc-IsTally new rs c (ground arith) h,
)
