-- ===== src/Base/Visits.antt =====
-- Sets of names that a walk over a graph has visited, and how many of a list are left.
use Prim.Native.Nat.{ℕ, suc, ◌≤◌}
use mathlib.Core.Path.{◌≡◌}
use mathlib.Core.Logic.{◌⊎◌, inl, inr}
use mathlib.Core.Bool.{true, false}
use mathlib.Core.List.{List, [], ◌∷◌}
use native.Mathlib.Omega.{arith}
use package.theta_directory.Base.Tests.{if◌then◌else◌, Bool-cases}
use package.theta_directory.Base.Lists.{length, In}
use package.theta_directory.Base.Texts.{Text, ◌==◌, includes, eq_iff, eq_refl}

abbrev pub IsWithin : List Text → List Text → Type 0
IsWithin before after = (x : Text) → includes before x ≡ true → includes after x ≡ true

pub IsWithin-cons : (id : Text) (visited : List Text) → IsWithin visited (id ∷ visited)
unfolding includes
IsWithin-cons id visited x h = ground (arith, h)

pub includes-here : (id : Text) (visited : List Text) → includes (id ∷ visited) id ≡ true
unfolding includes
includes-here id visited = ground (arith, eq_refl id)

pub includes-cons :
    (id : Text) (visited : List Text) (x : Text)
    → includes (id ∷ visited) x ≡ true
    → (id ≡ x) ⊎ (includes visited x ≡ true)
unfolding includes
includes-cons id visited x h = ground (arith, h, eq_iff id x)

pub includes-In : (names : List Text) (x : Text) → In x names → includes names x ≡ true
unfolding includes
includes-In [] x none_left = absurd none_left
includes-In (y ∷ ys) x (inl same) = ground (arith, same, eq_refl x)
includes-In (y ∷ ys) x (inr below) = ground (arith, includes-In ys x below)

-- How many of the names were not visited yet.
pub remaining : List Text → List Text → ℕ
remaining [] visited = 0
remaining (x ∷ xs) visited =
    let rest = remaining xs visited in if includes visited x then rest else suc rest

pub remaining_all : (xs : List Text) (visited : List Text) → remaining xs visited ≤ length xs
unfolding remaining
remaining_all [] visited = omega arith
remaining_all (x ∷ xs) visited = ground (arith, remaining_all xs visited)

pub remaining_mono :
    (xs : List Text) (before after : List Text)
    → IsWithin before after
    → remaining xs after ≤ remaining xs before
unfolding remaining
remaining_mono [] before after h = omega arith
remaining_mono (x ∷ xs) before after h = ground (arith, h x, remaining_mono xs before after h)

pub remaining-visit :
    (xs : List Text) (visited : List Text) (id : Text)
    → includes xs id ≡ true
    → includes visited id ≡ false
    → suc (remaining xs (id ∷ visited)) ≤ remaining xs visited
unfolding remaining includes
remaining-visit [] visited id found unseen = absurd (ground arith)
remaining-visit (x ∷ xs) visited id found unseen = elim (Bool-cases (x == id)) [
  | inl same ↦ ground (
    arith,
    (eq_iff x id).0 same,
    eq_refl id,
    remaining_mono xs visited (id ∷ visited) (IsWithin-cons id visited),
  )
  | inr other ↦ ground (arith, eq_iff x id, eq_iff id x, remaining-visit xs visited id)
]
