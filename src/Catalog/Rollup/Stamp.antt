-- ===== src/Catalog/Rollup/Stamp.antt =====
-- What nodejs/models/resource.js writes on the resources of a graph (`getGraph`).
use theta_directory.Base.{
  ℕ, ◌≤◌, List, [], ◌∷◌, Text, ◌==◌, get, All, ◌≡◌, refl, ◌⊎◌, inl, inr, none≢some,
}
use theta_directory.Inheritance.{Edge, child_index}
use theta_directory.Catalog.{Resource, Metadata}
use theta_directory.Catalog.Rollup.{
  Rolled, Caches, Stamped, env_rank, status_rank, status_of, environment_of, roll_from, stamp,
  stamp_all, get_graph,
}
use theta_directory.Catalog.Rollup.Below.{Under}
use theta_directory.Catalog.Rollup.Sound.{IsSound, roll_from-IsSound}
use theta_directory.Catalog.Rollup.Explored.{IsComplete}
use theta_directory.Catalog.Rollup.Complete.{roll_from-IsComplete}

-- `t` is the value of something at or below the resource, and nothing there ranks higher; without
-- any value, it is empty.
abbrev pub IsWorst :
    (Text → ℕ) → (Metadata → Text) → List Resource → List Edge → Text → Text → Type 0
IsWorst rank value all edges id t =
    ((y : Resource) → Under all (child_index edges) id y → rank (value y.metadata) ≤ rank t)
    × ((t ≡ []) ⊎ ((y : Resource) × Under all (child_index edges) id y × (value y.metadata ≡ t)))

module _ (rank : Text → ℕ) (value : Metadata → Text) (rank_nil : rank [] ≡ 0) (all : List Resource)
    (edges : List Edge) where
  abbrev IsTrusted : List (Text × Rolled) → Type 0
  IsTrusted cache =
      IsSound rank value all (child_index edges) cache
      × IsComplete rank value rank_nil all (child_index edges) cache

  IsTrusted-nil : IsTrusted []
  unfolding get
  IsTrusted-nil = ((λ k hit h. absurd (none≢some h)), (λ k hit h. absurd (none≢some h)))

  roll_from-IsWorst :
      (cache : List (Text × Rolled)) (id : Text)
      → IsTrusted cache
      → IsWorst rank value all edges id
          (roll_from rank value all (child_index edges) cache id).0.best
        × IsTrusted (roll_from rank value all (child_index edges) cache id).1.cache
  roll_from-IsWorst cache id (sound, complete) =
      let s = roll_from-IsSound rank value all (child_index edges) cache id sound in
      let c = roll_from-IsComplete rank value rank_nil all (child_index edges) cache id complete in
      (
        (
          c.0,
          elim s.0 [ inl empty ↦ inl empty | inr (y, from, below, same) ↦ inr (y, below, same) ],
        ),
        (s.1, c.1),
      )

status_nil : status_rank [] ≡ 0
unfolding status_rank ◌==◌
status_nil = refl

env_nil : env_rank [] ≡ 0
unfolding env_rank ◌==◌
env_nil = refl

abbrev pub IsStamped : List Resource → List Edge → Stamped → Type 0
IsStamped all edges s =
    IsWorst status_rank status_of all edges s.resource.id s.bubbled_status
    × IsWorst env_rank environment_of all edges s.resource.id s.bubbled_environment

stamp_all-IsStamped :
    (all : List Resource) (edges : List Edge) (caches : Caches) (rs : List Resource)
    → IsTrusted status_rank status_of status_nil all edges caches.statuses
    → IsTrusted env_rank environment_of env_nil all edges caches.environments
    → All (IsStamped all edges) (stamp_all all (child_index edges) caches rs)
unfolding stamp_all stamp
stamp_all-IsStamped all edges caches [] h k = tt
stamp_all-IsStamped all edges caches (r ∷ rs) h k =
    let status =
      roll_from-IsWorst status_rank status_of status_nil all edges caches.statuses r.id h in
    let environment =
      roll_from-IsWorst env_rank environment_of env_nil all edges caches.environments r.id k in
    (
      (status.0, environment.0),
      stamp_all-IsStamped all edges (stamp all (child_index edges) caches r).1 rs status.1
          environment.1,
    )

-- On every graph, cycles and shared children included, the status and the environment that each
-- resource is given are the worst of those at or below it, and empty if nothing there has one.
pub get_graph-IsWorst :
    (all : List Resource) (edges : List Edge) → All (IsStamped all edges) (get_graph all edges)
unfolding get_graph
get_graph-IsWorst all edges =
    stamp_all-IsStamped all edges (record { tags = []; environments = []; statuses = [] }) all
      (IsTrusted-nil status_rank status_of status_nil all edges)
      (IsTrusted-nil env_rank environment_of env_nil all edges)
