-- ===== src/Inheritance/Final.antt =====
-- The result of `effectiveGrants` in nodejs/services/access_inheritance.js.
use theta_directory.Base.{
  ◌≤◌, List, [], ◌∷◌, ◌≡◌, ◌⊎◌, inl, inr, arith, Text, ◌==◌, eq_iff, In, some, put, Distinct,
  Bool-cases,
}
use theta_directory.Inheritance.{
  Edge, Level, Levels, rank_of, level_of, strongest, apply_own, run, effective_grants,
}
use theta_directory.Inheritance.Index.{Below}
use theta_directory.Inheritance.Bound.{level_of-put, rank_at}
use theta_directory.Inheritance.Sound.{Granted, run-IsSound}
use theta_directory.Inheritance.Complete.{run_complete}

strongest_ge :
    (a b : Level) → (rank_of a ≤ rank_of (strongest a b)) × (rank_of b ≤ rank_of (strongest a b))
unfolding strongest
strongest_ge a b = ground arith

rank_at-apply_own : (m own : Levels) (id : Text) → rank_at m id ≤ rank_at (apply_own m own) id
unfolding apply_own
rank_at-apply_own m [] id = omega arith
rank_at-apply_own m ((k, l) ∷ own) id =
    let next : Levels = put m k (strongest (level_of m k) l) in
    ground (
      arith,
      rank_at-apply_own next own id,
      level_of-put m k id (strongest (level_of m k) l),
      eq_iff k id,
      strongest_ge (level_of m k) l,
    )

apply_own_sound :
    (m own : Levels) (id t : Text)
    → level_of (apply_own m own) id ≡ some t
    → (level_of m id ≡ some t) ⊎ In (id, some t) own
unfolding apply_own
apply_own_sound m [] id t h = inl h
apply_own_sound m ((k, l) ∷ own) id t h =
    elim (apply_own_sound (put m k (strongest (level_of m k) l)) own id t h) [
      | inl held ↦ elim (Bool-cases (k == id)) [
        | inl same ↦
            unfold strongest in
            ground (arith, level_of-put m k id (strongest (level_of m k) l), eq_iff k id, held)
        | inr other ↦ inl (ground (arith, level_of-put m k id (strongest (level_of m k) l), held))
      ]
      | inr later ↦ inr (inr later)
    ]

-- A level granted on a resource is reached by everything at or below it, on any graph.
pub effective_grants_complete :
    (direct : Levels) (edges : List Edge) (own : Levels) (root id : Text) (l : Level)
    → Distinct direct
    → In (root, l) direct
    → Below edges root id
    → rank_of l ≤ rank_of (level_of (effective_grants direct edges own) id)
unfolding effective_grants
effective_grants_complete direct edges own root id l h g b = omega (
  arith,
  run_complete edges direct root id l h g b,
  rank_at-apply_own (run direct edges).effective own id,
)

-- A level that a resource has was granted at or above it, or on itself alone.
pub effective_grants_sound :
    (direct : Levels) (edges : List Edge) (own : Levels) (id t : Text)
    → level_of (effective_grants direct edges own) id ≡ some t
    → Granted direct edges id (some t) ⊎ In (id, some t) own
unfolding effective_grants
effective_grants_sound direct edges own id t h =
    elim (apply_own_sound (run direct edges).effective own id t h) [
      | inl held ↦ inl ((run-IsSound direct edges).levels id t held)
      | inr listed ↦ inr listed
    ]
