-- ===== src/Common/Dict.antt =====
-- A JavaScript object used as a map, `Record<string, V>`, as an association list: a write replaces
-- the entry of its key or adds one, `delete` drops it, a read of a missing key is `undefined`.
use Prim.Native.String.{String}
use mathlib.Core.Path.{◌≡◌, refl}
use mathlib.Core.Option.{Option, none, some}
use mathlib.Core.List.{List, [], ◌∷◌, map}
use native.Mathlib.Omega.{arith}
use text.Mathlib.Text.{◌==◌}
use text.Mathlib.TextEquality.{eq_iff}
use dfchat.Common.Tests.{if◌then◌else◌, is_some}

abbrev pub Dict {ℓ} : Type ℓ → Type ℓ
Dict V = List (String × V)

module _ {ℓ} {V : Type ℓ} where
  -- `m[k]`
  unfoldable pub get : String → Dict V → Option V
  get k [] = none
  get k ((j, v) ∷ m) = if j == k then some v else get k m

  -- `{ ...m, [k]: v }`
  unfoldable pub put : String → V → Dict V → Dict V
  put k v [] = (k, v) ∷ []
  put k v ((j, w) ∷ m) = if j == k then (j, v) ∷ m else (j, w) ∷ put k v m

  -- `delete m[k]`
  unfoldable pub remove : String → Dict V → Dict V
  remove k [] = []
  remove k ((j, v) ∷ m) = if j == k then remove k m else (j, v) ∷ remove k m

  -- `{ ...a, ...b }`
  unfoldable pub spread : Dict V → Dict V → Dict V
  unfolding put
  spread a [] = a
  spread a ((k, v) ∷ b) = put k v (spread a b)

  -- `Object.keys(m)`
  abbrev pub keys : Dict V → List String
  keys m = map (λ e. e.0) m

  pub get-put :
      (k j : String) (v : V) (m : Dict V) → get j (put k v m) ≡ (if k == j then some v else get j m)
  unfolding get put
  get-put k j v [] = refl
  get-put k j v ((i, w) ∷ m) = ground (arith, eq_iff k j, eq_iff i k, eq_iff i j, get-put k j v m)

  pub get-remove :
      (k j : String) (m : Dict V) → get j (remove k m) ≡ (if k == j then none else get j m)
  unfolding get remove
  get-remove k j [] = ground arith
  get-remove k j ((i, w) ∷ m) = ground (arith, eq_iff k j, eq_iff i k, eq_iff i j, get-remove k j m)

  pub get-spread :
      (j : String) (a b : Dict V)
      → get j (spread a b) ≡ (if is_some (get j b) then get j b else get j a)
  unfolding get spread
  get-spread j a [] = refl
  get-spread j a ((k, v) ∷ b) = ground (arith, get-put k j v (spread a b), get-spread j a b)
