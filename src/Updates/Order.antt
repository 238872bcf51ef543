-- ===== src/Updates/Order.antt =====
-- `compareSemver` of client/electron/main.ts orders versions.
use Prim.Native.Nat.{compare, Ordering}
use dfchat.Common.{ℕ, zero, suc, ◌<◌, ◌≡◌, sym, ◌⊎◌, inl, inr, refl, List, [], ◌∷◌, arith}
use dfchat.Updates.{or_next, compare_semver}

-- The part of a version at a position, 0 past its last.
abbrev pub part : List ℕ → ℕ → ℕ
part [] i = 0
part (x ∷ v) zero = x
part (x ∷ v) (suc i) = part v i

-- The first is greater at some position, and they are equal at every position before it.
abbrev pub Exceeds : (ℕ → ℕ) → (ℕ → ℕ) → Type 0
Exceeds p q = (i : ℕ) × (q i < p i) × ((j : ℕ) → j < i → p j ≡ q j)

abbrev pub Tells : Ordering → (ℕ → ℕ) → (ℕ → ℕ) → Type 0
Tells Ordering.gt p q = Exceeds p q
Tells Ordering.lt p q = Exceeds q p
Tells Ordering.eq p q = (i : ℕ) → p i ≡ q i

compare_cases :
    (x y : ℕ)
    → ((compare x y ≡ Ordering.gt) × (y < x))
      ⊎ (((compare x y ≡ Ordering.lt) × (x < y)) ⊎ ((compare x y ≡ Ordering.eq) × (x ≡ y)))
compare_cases x y = ground arith

Exceeds-later : (p q : ℕ → ℕ) → p 0 ≡ q 0 → Exceeds (λ i. p (suc i)) (λ i. q (suc i)) → Exceeds p q
Exceeds-later p q e (i, over, same) = (suc i, over, before)
  where
    before : (j : ℕ) → j < suc i → p j ≡ q j
    before zero h = e
    before (suc j) h = same j (omega (arith, h))

Tells-later :
    (o : Ordering) (p q : ℕ → ℕ)
    → p 0 ≡ q 0
    → Tells o (λ i. p (suc i)) (λ i. q (suc i))
    → Tells o p q
Tells-later Ordering.gt p q e h = Exceeds-later p q e h
Tells-later Ordering.lt p q e h = Exceeds-later q p (sym e) h
Tells-later Ordering.eq p q e h = equal
  where
    equal : (i : ℕ) → p i ≡ q i
    equal zero = e
    equal (suc i) = h i

Tells-or_next :
    (o : Ordering) (p q : ℕ → ℕ)
    → Tells o (λ i. p (suc i)) (λ i. q (suc i))
    → Tells (or_next (compare (p 0) (q 0)) o) p q
Tells-or_next o p q h = elim (compare_cases (p 0) (q 0)) [
  | inl (e, over) ↦ rw e (0, over, λ j low. absurd (omega (arith, low)))
  | inr (inl (e, under)) ↦ rw e (0, under, λ j low. absurd (omega (arith, low)))
  | inr (inr (e, same)) ↦ rw e (Tells-later o p q same h)
]

-- The result is 1 if and only if at the first position where the parts differ the first version has
-- the greater one, a part that is missing counting as 0; it is -1 if the second version has it, and 0
-- if no part differs.
pub compare_semver-Tells : (a b : List ℕ) → Tells (compare_semver a b) (part a) (part b)
unfolding compare_semver
compare_semver-Tells [] [] = λ i. refl
compare_semver-Tells [] (y ∷ b) =
    Tells-or_next (compare_semver [] b) (part []) (part (y ∷ b)) (compare_semver-Tells [] b)
compare_semver-Tells (x ∷ a) [] =
    Tells-or_next (compare_semver a []) (part (x ∷ a)) (part []) (compare_semver-Tells a [])
compare_semver-Tells (x ∷ a) (y ∷ b) =
    Tells-or_next (compare_semver a b) (part (x ∷ a)) (part (y ∷ b)) (compare_semver-Tells a b)
