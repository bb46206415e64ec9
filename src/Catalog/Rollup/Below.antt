-- ===== src/Catalog/Rollup/Below.antt =====
-- What stands at or below a resource in the graph of nodejs/models/resource.js.
use theta_directory.Base.{suc, List, [], ◌∷◌, map, some, length, Text, ◌≡◌, refl, ap, In}
use theta_directory.Inheritance.{children_of}
use theta_directory.Catalog.{Resource}
use theta_directory.Catalog.Rollup.{find_resource}

abbrev pub ids : List Resource → List Text
ids all = map (λ r. r.id) all

pub length-ids : (all : List Resource) → length (ids all) ≡ length all
length-ids [] = refl
length-ids (r ∷ rs) = ap suc (length-ids rs)

-- `y` is `id` itself, or stands below one of its children; an edge to a row that does not exist
-- leads nowhere.
pub data Under (all : List Resource) (index : List (Text × List Text))
    : Text → Resource → Type 0 where
  here : {id : Text} {r : Resource} → find_resource all id ≡ some r → Under all index id r
  step :
      {id c : Text} {r y : Resource}
      → find_resource all id ≡ some r
      → In c (children_of index id)
      → Under all index c y
      → Under all index id y
