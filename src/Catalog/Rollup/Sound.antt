-- ===== src/Catalog/Rollup/Sound.antt =====
-- A state rolled up by nodejs/models/resource.js is the state of something below.
use theta_directory.Base.{
  ℕ, zero, suc, ◌&&◌, ◌||◌, List, [], ◌∷◌, some, length, ltb, if_cases, Text, ◌==◌, eq_iff,
  includes, is_empty, get, put, get-put, In, All, All-self, ◌≡◌, refl, ◌⊎◌, inl, inr, Bool-cases,
  Option-cases, some-injective, subst,
}
use theta_directory.Inheritance.{children_of}
use theta_directory.Catalog.{Resource, Metadata}
use theta_directory.Catalog.Rollup.{
  Rolled, Walk, find_resource, own, merge, roll_children, remember, roll, roll_from,
}
use theta_directory.Catalog.Rollup.Below.{Under, here, step}

module _ (rank : Text → ℕ) (value : Metadata → Text) (all : List Resource)
    (index : List (Text × List Text)) where
  -- The answer names a resource below, and states its value.
  abbrev pub IsWitnessed : Text → Rolled → Type 0
  IsWitnessed id rolled =
      (rolled.best ≡ [])
      ⊎ ((y : Resource) × (rolled.source ≡ some y)
          × Under all index id y
          × (value y.metadata ≡ rolled.best))

  abbrev pub IsSound : List (Text × Rolled) → Type 0
  IsSound cache = (k : Text) (hit : Rolled) → get cache k ≡ some hit → IsWitnessed k hit

  own-IsWitnessed :
      (id : Text) (r : Resource) → find_resource all id ≡ some r → IsWitnessed id (own rank value r)
  unfolding own
  own-IsWitnessed id r found = elim (Bool-cases (ltb 0 (rank (value r.metadata)))) [
    | inl ranked ↦ rw ranked (inr (r, refl, here found, refl))
    | inr none_left ↦ rw none_left (inl refl)
  ]

  IsWitnessed-above :
      (id c : Text) (r : Resource) (rolled : Rolled)
      → find_resource all id ≡ some r
      → In c (children_of index id)
      → IsWitnessed c rolled
      → IsWitnessed id rolled
  IsWitnessed-above id c r rolled found child (inl empty) = inl empty
  IsWitnessed-above id c r rolled found child (inr (y, from, below, same)) =
      inr (y, from, step found child below, same)

  merge-IsWitnessed :
      (id : Text) (acc child : Rolled)
      → IsWitnessed id acc
      → IsWitnessed id child
      → IsWitnessed id (merge rank value acc child)
  unfolding merge
  merge-IsWitnessed id acc child p q =
      let takes =
        ltb 0 (rank child.best) && (is_empty acc.best || ltb (rank acc.best) (rank child.best)) in
      elim (Bool-cases takes) [ inl yes_taken ↦ rw yes_taken q | inr kept ↦ rw kept p ]

  IsSound-put :
      (cache : List (Text × Rolled)) (id : Text) (rolled : Rolled)
      → IsSound cache
      → IsWitnessed id rolled
      → IsSound (put cache id rolled)
  IsSound-put cache id rolled h p k hit found = elim (Bool-cases (id == k)) [
    | inl same ↦
        let e : rolled ≡ hit = some-injective (rw (get-put cache id k rolled, same) at found) in
        subst (IsWitnessed k) e (subst (λ j. IsWitnessed j rolled) ((eq_iff id k).0 same) p)
    | inr other ↦ h k hit (rw (get-put cache id k rolled, other) at found)
  ]

  abbrev AreSound : Text → Rolled × Walk → Type 0
  AreSound id answer = IsWitnessed id answer.0 × IsSound answer.1.cache

  remember-AreSound :
      (id : Text) (answer : Rolled × Walk)
      → AreSound id answer
      → AreSound id (remember rank value id answer)
  unfolding remember
  remember-AreSound id (rolled, w) (p, h) = (
    p,
    if_cases (λ u. IsSound u.cache) rolled.truncated w (record w { cache = put w.cache id rolled })
        h (IsSound-put w.cache id rolled h p),
  )

  roll_children-AreSound :
      (visit : Text → Walk → Rolled × Walk) (id : Text) (r : Resource)
      → find_resource all id ≡ some r
      → ((c : Text) (w : Walk) → IsSound w.cache → AreSound c (visit c w))
      → (cs : List Text) → All (λ c. In c (children_of index id)) cs
      → (acc : Rolled) (w : Walk) → IsWitnessed id acc
      → IsSound w.cache
      → AreSound id (roll_children rank value visit cs acc w)
  unfolding roll_children
  roll_children-AreSound visit id r found visits [] below acc w p h = (p, h)
  roll_children-AreSound visit id r found visits (c ∷ cs) (child, below) acc w p h =
      let answer = visits c w h in
      roll_children-AreSound visit id r found visits cs below (merge rank value acc (visit c w).0)
        (visit c w).1
        (merge-IsWitnessed id acc (visit c w).0 p
          (IsWitnessed-above id c r (visit c w).0 found child answer.0))
        answer.1

  roll-AreSound :
      (fuel : ℕ) (id : Text) (w : Walk)
      → IsSound w.cache
      → AreSound id (roll rank value all index fuel id w)
  unfolding roll
  roll-AreSound zero id w h = (inl refl, h)
  roll-AreSound (suc fuel) id w h = elim (Option-cases (get w.cache id)) [
    | inr (hit, cached) ↦ rw (cached, roll) (h id hit cached, h)
    | inl fresh ↦ elim (Bool-cases (includes w.visited id)) [
      | inl seen ↦ rw (fresh, seen, roll) (inl refl, h)
      | inr unseen ↦ elim (Option-cases (find_resource all id)) [
        | inl unknown ↦ rw (fresh, unseen, unknown, roll) (inl refl, h)
        | inr (r, found) ↦
            rw (fresh, unseen, found, roll)
              (remember-AreSound id _ (
                roll_children-AreSound (roll rank value all index fuel) id r found
                  (roll-AreSound fuel) (children_of index id) (All-self (children_of index id))
                  (own rank value r) _ (own-IsWitnessed id r found) h))
      ]
    ]
  ]

  pub roll_from-IsSound :
      (cache : List (Text × Rolled)) (id : Text)
      → IsSound cache
      → IsWitnessed id (roll_from rank value all index cache id).0
        × IsSound (roll_from rank value all index cache id).1.cache
  unfolding roll_from
  roll_from-IsSound cache id h =
      roll-AreSound (suc (length all)) id (record { visited = []; cache = cache }) h
