-- ===== src/Catalog/Rollup.antt =====
-- The states that nodejs/models/resource.js rolls up from a resource's descendants (`getGraph`).
pub mod Below
pub mod Sound
pub mod Explored
pub mod Complete
pub mod Stamp
mod Tests
use theta_directory.Base.{
  ℕ, zero, suc, Bool, true, false, ◌&&◌, ◌||◌, List, [], ◌∷◌, ◌++◌, Option, none, some, find,
  length, ltb, if◌then◌else◌, Text, codes, ◌==◌, includes, is_empty, get, put, or_text, not,
}
use theta_directory.Inheritance.{Edge, child_index, children_of}
use theta_directory.Catalog.{Resource, Metadata}

-- `ENV_RANK`, 0 for anything else.
unfoldable pub env_rank : Text → ℕ
env_rank t =
    if t == codes "prod"
    then 3
    else if t == codes "testing"
    then 2
    else if t == codes "dev"
    then 1
    else 0

-- `STATUS_RANK`, 0 for anything else.
unfoldable pub status_rank : Text → ℕ
status_rank t =
    if t == codes "critical" || t == codes "error"
    then 4
    else if t == codes "warning"
    then 3
    else if t == codes "unknown"
    then 2
    else if t == codes "ok"
    then 1
    else 0

-- What a visit answers: `best` is empty for undefined.
pub record Rolled : Type 0 where
  pub best : Text
  pub source : Option Resource
  pub truncated : Bool

-- The `visited` set of one call and the cache of all calls.
pub record Walk : Type 0 where
  pub visited : List Text
  pub cache : List (Text × Rolled)

unfoldable pub find_resource : List Resource → Text → Option Resource
find_resource all id = find (λ r. r.id == id) all

-- The answer for an unknown resource, and for one that the cycle guard stops at.
abbrev pub nothing : Bool → Rolled
nothing truncated = record { best = []; source = none; truncated = truncated }

module _ (rank : Text → ℕ) (value : Metadata → Text) where
  unfoldable pub own : Resource → Rolled
  own r =
      if ltb 0 (rank (value r.metadata))
      then record { best = value r.metadata; source = some r; truncated = false }
      else nothing false

  -- The body of the loop over the children.
  unfoldable pub merge : Rolled → Rolled → Rolled
  merge acc child =
      let takes =
        ltb 0 (rank child.best) && (is_empty acc.best || ltb (rank acc.best) (rank child.best)) in
      record {
        best = if takes then child.best else acc.best;
        source = if takes then child.source else acc.source;
        truncated = acc.truncated || child.truncated;
      }

  unfoldable pub roll_children :
      (Text → Walk → Rolled × Walk) → List Text → Rolled → Walk → Rolled × Walk
  roll_children visit [] acc w = (acc, w)
  roll_children visit (c ∷ cs) acc w =
      let child = visit c w in roll_children visit cs (merge acc child.0) child.1

  -- A result that the cycle guard cut short is not cached.
  unfoldable pub remember : Text → Rolled × Walk → Rolled × Walk
  remember id (rolled, w) =
      (rolled, if rolled.truncated then w else record w { cache = put w.cache id rolled })

  module _ (all : List Resource) (index : List (Text × List Text)) where
    -- `getStatus`, and `getEnvironment`, which answers without the source.
    unfoldable pub roll : ℕ → Text → Walk → Rolled × Walk
    roll zero id w = (nothing true, w)
    roll (suc fuel) id w = elim (get w.cache id) [
      | some hit ↦ (hit, w)
      | none ↦ elim (includes w.visited id) [
        | true ↦ (nothing true, w)
        | false ↦
            let entered : Walk = record w { visited = id ∷ w.visited } in
            elim (find_resource all id) [
              | none ↦ (nothing false, entered)
              | some r ↦
                  remember id (roll_children (roll fuel) (children_of index id) (own r) entered)
            ]
      ]
    ]

    -- A call from outside: nothing is visited yet.
    unfoldable pub roll_from : List (Text × Rolled) → Text → Rolled × Walk
    roll_from cache id = roll (suc (length all)) id (record { visited = []; cache = cache })

-- The `visited` set and the cache of `getTags`.
pub record TagWalk : Type 0 where
  pub visited : List Text
  pub cache : List (Text × List Text)

-- `for (const tag of more) tags.add(tag)`, on a set in insertion order.
unfoldable pub add_tags : List Text → List Text → List Text
add_tags tags [] = tags
add_tags tags (t ∷ more) = add_tags (if includes tags t then tags else tags ++ t ∷ []) more

unfoldable pub tag_children :
    (Text → TagWalk → List Text × TagWalk) → List Text → List Text → TagWalk → List Text × TagWalk
tag_children visit [] tags w = (tags, w)
tag_children visit (c ∷ cs) tags w =
    let child = visit c w in tag_children visit cs (add_tags tags child.0) child.1

-- Here every result is cached, one that the cycle guard cut short too.
unfoldable pub remember_tags : Text → List Text × TagWalk → List Text × TagWalk
remember_tags id (tags, w) = (tags, record w { cache = put w.cache id tags })

module _ (all : List Resource) (index : List (Text × List Text)) where
  unfoldable pub tags_of : ℕ → Text → TagWalk → List Text × TagWalk
  tags_of zero id w = ([], w)
  tags_of (suc fuel) id w = elim (get w.cache id) [
    | some hit ↦ (hit, w)
    | none ↦ elim (includes w.visited id) [
      | true ↦ ([], w)
      | false ↦
          let entered : TagWalk = record w { visited = id ∷ w.visited } in
          elim (find_resource all id) [
            | none ↦ ([], entered)
            | some r ↦ remember_tags id (
                tag_children (tags_of fuel) (children_of index id) (add_tags [] r.metadata.tags)
                  entered)
          ]
    ]
  ]

  unfoldable pub tags_from : List (Text × List Text) → Text → List Text × TagWalk
  tags_from cache id = tags_of (suc (length all)) id (record { visited = []; cache = cache })

-- The caches that one call of `getGraph` fills.
pub record Caches : Type 0 where
  pub tags : List (Text × List Text)
  pub environments : List (Text × Rolled)
  pub statuses : List (Text × Rolled)

-- A resource with the metadata that `getGraph` adds; an empty text is not set.
pub record Stamped : Type 0 where
  pub resource : Resource
  pub bubbled_tags : List Text
  pub bubbled_environment : Text
  pub bubbled_status : Text
  pub bubbled_status_from : Text

abbrev pub status_of : Metadata → Text
status_of m = m.status

abbrev pub environment_of : Metadata → Text
environment_of m = m.environment

-- Whom to name for the status: nobody if it is the resource's own.
unfoldable pub culprit_name : Resource → Rolled → Text
culprit_name r rolled = elim rolled.source [
  | none ↦ []
  | some y ↦ if not (is_empty rolled.best) && not (y.id == r.id) then or_text y.name y.slug else []
]

module _ (all : List Resource) (index : List (Text × List Text)) where
  -- The body of the loop over the resources.
  unfoldable pub stamp : Caches → Resource → Stamped × Caches
  stamp caches r =
      let tags = tags_from all index caches.tags r.id in
      let environment = roll_from env_rank environment_of all index caches.environments r.id in
      let status = roll_from status_rank status_of all index caches.statuses r.id in
      (
        record {
          resource = r;
          bubbled_tags = tags.0;
          bubbled_environment = environment.0.best;
          bubbled_status = status.0.best;
          bubbled_status_from = culprit_name r status.0;
        },
        record {
          tags = tags.1.cache;
          environments = environment.1.cache;
          statuses = status.1.cache;
        },
      )

  unfoldable pub stamp_all : Caches → List Resource → List Stamped
  stamp_all caches [] = []
  stamp_all caches (r ∷ rs) = let one = stamp caches r in one.0 ∷ stamp_all one.1 rs

-- `getGraph`, its resources.
unfoldable pub get_graph : List Resource → List Edge → List Stamped
get_graph all edges =
    stamp_all all (child_index edges) (record { tags = []; environments = []; statuses = [] }) all
