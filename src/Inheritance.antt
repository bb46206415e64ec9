-- ===== src/Inheritance.antt =====
-- nodejs/services/access_inheritance.js: grants on a resource reach what stands below it.
pub mod Index
pub mod Bound
pub mod Sound
pub mod Keep
pub mod Complete
pub mod Final
mod Tests
use theta_directory.Base.{
  ℕ, zero, suc, ◌+◌, ◌*◌, Bool, true, false, ◌||◌, List, [], ◌∷◌, ◌++◌, Option, none, some,
  if◌then◌else◌, ltb, leb, length, Text, codes, ◌==◌, to_lower, is_empty, get, put, get_or,
}

pub record Edge : Type 0 where
  pub parent_id : Text
  pub child_id : Text

-- A level as it is stored: `none` is undefined or null.
abbrev pub Level : Type 0
Level = Option Text

abbrev pub Levels : Type 0
Levels = List (Text × Level)

-- `LEVEL_RANK`, 0 for anything else.
unfoldable pub rank_text : Text → ℕ
rank_text t =
    if t == codes "viewer" || t == codes "member"
    then 1
    else if t == codes "access"
    then 2
    else if t == codes "admin"
    then 3
    else if t == codes "owner"
    then 4
    else 0

unfoldable pub rank_of : Level → ℕ
rank_of none = 0
rank_of (some t) = rank_text (to_lower t)

unfoldable pub strongest : Level → Level → Level
strongest a b = if leb (rank_of b) (rank_of a) then a else b

-- `index.get(parentId).push(childId)`, where the key is set first if it is missing.
unfoldable pub add_child : List (Text × List Text) → Edge → List (Text × List Text)
add_child index e =
    if is_empty e.parent_id || is_empty e.child_id
    then index
    else put index e.parent_id (get_or (get index e.parent_id) [] ++ e.child_id ∷ [])

unfoldable pub child_index_from : List (Text × List Text) → List Edge → List (Text × List Text)
child_index_from index [] = index
child_index_from index (e ∷ es) = child_index_from (add_child index e) es

unfoldable pub child_index : List Edge → List (Text × List Text)
child_index edges = child_index_from [] edges

-- `children.get(id) || []`
unfoldable pub children_of : List (Text × List Text) → Text → List Text
children_of index id = get_or (get index id) []

-- `effective.get(id)`; the key may be missing, or hold no level.
unfoldable pub level_of : Levels → Text → Level
level_of m id = get_or (get m id) none

pub record Walk : Type 0 where
  pub effective : Levels
  pub queue : Levels

-- `effective.set(id, level); queue.push([id, level])`
abbrev pub push : Walk → Text → Level → Walk
push w id level = record {
  effective = put w.effective id level;
  queue = w.queue ++ (id, level) ∷ [];
}

-- One child of the node that is being expanded.
unfoldable pub visit : Level → Walk → Text → Walk
visit level w child =
    let current = level_of w.effective child in
    let next = strongest current level in
    if ltb (rank_of current) (rank_of next) then push w child next else w

unfoldable pub visit_all : Level → Walk → List Text → Walk
visit_all level w [] = w
visit_all level w (c ∷ cs) = visit_all level (visit level w c) cs

-- One round of the `while` loop, after `(id, level)` left the queue.
unfoldable pub expand : List (Text × List Text) → Text → Level → Walk → Walk
expand index id level w =
    if ltb (rank_of level) (rank_of (level_of w.effective id))
    then w
    else visit_all level w (children_of index id)

unfoldable pub walk : ℕ → List (Text × List Text) → Walk → Walk
walk zero index w = w
walk (suc fuel) index w = elim w.queue [
  | [] ↦ w
  | (id, level) ∷ rest ↦ walk fuel index (expand index id level (record w { queue = rest }))
]

-- The loop that seeds the walk.
unfoldable pub seed : Walk → Levels → Walk
seed w [] = w
seed w ((id, level) ∷ more) = seed (push w id level) more

abbrev pub nothing : Walk
nothing = record { effective = []; queue = [] }

-- Each round takes one entry from the queue, and a node is queued again only at a higher rank.
abbrev pub fuel_for : Levels → List Edge → ℕ
fuel_for direct edges = length direct + 4 * length edges

unfoldable pub run : Levels → List Edge → Walk
run direct edges = walk (fuel_for direct edges) (child_index edges) (seed nothing direct)

-- The loop after the walk.
unfoldable pub apply_own : Levels → Levels → Levels
apply_own m [] = m
apply_own m ((id, level) ∷ more) = apply_own (put m id (strongest (level_of m id) level)) more

unfoldable pub effective_grants : Levels → List Edge → Levels → Levels
effective_grants direct edges non_inheriting = apply_own (run direct edges).effective non_inheriting
