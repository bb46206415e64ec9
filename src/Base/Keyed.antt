-- ===== src/Base/Keyed.antt =====
-- JavaScript's `Map` with string keys, as an association list in insertion order.
use mathlib.Core.Path.{◌≡◌, refl}
use mathlib.Core.Bool.{Bool, false, ◌||◌}
use mathlib.Core.Logic.{inl, inr}
use mathlib.Core.Option.{Option, none, some}
use mathlib.Core.List.{List, [], ◌∷◌}
use native.Mathlib.Omega.{arith}
use package.theta_directory.Base.Tests.{if◌then◌else◌, Bool-cases}
use package.theta_directory.Base.Texts.{Text, ◌==◌, eq_iff, eq_refl}

module _ {ℓ} {V : Type ℓ} where
  -- `m.get(k)`.
  unfoldable pub get : List (Text × V) → Text → Option V
  get [] k = none
  get ((j, v) ∷ m) k = if j == k then some v else get m k

  -- `m.has(k)`.
  unfoldable pub has : List (Text × V) → Text → Bool
  has [] k = false
  has ((j, v) ∷ m) k = j == k || has m k

  -- `m.set(k, v)`.
  unfoldable pub put : List (Text × V) → Text → V → List (Text × V)
  put [] k v = (k, v) ∷ []
  put ((j, w) ∷ m) k v = if j == k then (j, v) ∷ m else (j, w) ∷ put m k v

  -- `m.delete(k)`.
  unfoldable pub delete : List (Text × V) → Text → List (Text × V)
  delete [] k = []
  delete ((j, v) ∷ m) k = let rest = delete m k in if j == k then rest else (j, v) ∷ rest

  pub get-delete :
      (m : List (Text × V)) (k j : Text) → get (delete m k) j ≡ (if k == j then none else get m j)
  unfolding get delete
  get-delete [] k j = ground arith
  get-delete ((i, w) ∷ m) k j = ground (arith, eq_iff k j, eq_iff i k, eq_iff i j, get-delete m k j)

  pub get-put :
      (m : List (Text × V)) (k j : Text) (v : V)
      → get (put m k v) j ≡ (if k == j then some v else get m j)
  unfolding get put
  get-put [] k j v = refl
  get-put ((i, w) ∷ m) k j v = ground (arith, eq_iff k j, eq_iff i k, eq_iff i j, get-put m k j v)

-- A `Map` holds a key once.
abbrev pub Distinct {ℓ} : {V : Type ℓ} → List (Text × V) → Type 0
Distinct [] = Unit
Distinct ((k, v) ∷ m) = (has m k ≡ false) × Distinct m

module _ {ℓ} {V : Type ℓ} where
  pub has-put : (m : List (Text × V)) (k j : Text) (v : V) → has (put m k v) j ≡ (k == j || has m j)
  unfolding has put
  has-put [] k j v = refl
  has-put ((i, w) ∷ m) k j v = ground (arith, eq_iff k j, eq_iff i k, eq_iff i j, has-put m k j v)

  pub get-has : (m : List (Text × V)) (k : Text) → has m k ≡ false → get m k ≡ none
  unfolding has get
  get-has [] k h = refl
  get-has ((j, v) ∷ m) k h = ground (arith, get-has m k)

  pub get-put_self : (m : List (Text × V)) (k : Text) (v : V) → get (put m k v) k ≡ some v
  get-put_self m k v = ground (arith, get-put m k k v, eq_refl k)

  pub Distinct-put : (m : List (Text × V)) (k : Text) (v : V) → Distinct m → Distinct (put m k v)
  unfolding put has
  Distinct-put [] k v h = (refl, tt)
  Distinct-put ((j, w) ∷ m) k v (fresh, rest) = elim (Bool-cases (j == k)) [
    | inl same ↦ rw same (fresh, rest)
    | inr other ↦ rw other (
      ground (arith, fresh, other, has-put m k j v, eq_iff k j, eq_iff j k),
      Distinct-put m k v rest,
    )
  ]
