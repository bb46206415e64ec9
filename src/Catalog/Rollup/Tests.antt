-- ===== src/Catalog/Rollup/Tests.antt =====
-- A site with two hosts that point at each other, for nodejs/models/resource.js.
use theta_directory.Base.{
  List, [], ◌∷◌, map, Text, codes, ◌==◌, get, put, includes, is_empty, or_text, All, ◌≡◌, refl,
}
use theta_directory.Inheritance.{Edge, children_of, child_index, child_index_from, add_child}
use theta_directory.Catalog.{Resource, Metadata, plain_metadata, host_kind, site_kind}
use theta_directory.Catalog.Rollup.{
  env_rank, status_rank, find_resource, own, merge, roll_children, remember, roll, roll_from,
  add_tags, tag_children, remember_tags, tags_of, tags_from, culprit_name, stamp, stamp_all,
  get_graph,
}
use theta_directory.Catalog.Rollup.Stamp.{IsStamped, get_graph-IsWorst}

abbrev row : Text → Text → Metadata → Resource
row id kind metadata = record { id = id; kind = kind; name = id; slug = id; metadata = metadata }

abbrev rows : List Resource
rows =
    row (codes "a") host_kind (record plain_metadata {
      status = codes "ok";
      environment = codes "dev";
      tags = codes "db" ∷ [];
    })
    ∷ row (codes "b") host_kind (record plain_metadata { status = codes "critical" })
    ∷ row (codes "s") site_kind plain_metadata
    ∷ []

abbrev links : List Edge
links =
    record { parent_id = codes "a"; child_id = codes "b" }
    ∷ record { parent_id = codes "b"; child_id = codes "a" }
    ∷ record { parent_id = codes "s"; child_id = codes "a" }
    ∷ []

get_graph-IsWorst_example : All (IsStamped rows links) (get_graph rows links)
get_graph-IsWorst_example = get_graph-IsWorst rows links

statuses :
    map (λ s. s.bubbled_status) (get_graph rows links)
    ≡ codes "critical" ∷ codes "critical" ∷ codes "critical" ∷ []
unfolding get_graph stamp_all stamp culprit_name status_rank env_rank find_resource own merge
    roll_children remember roll roll_from add_tags tag_children remember_tags tags_of tags_from
    children_of child_index child_index_from add_child ◌==◌ get put includes is_empty or_text
statuses = refl

-- The second host does not get the tag of the first, which stands below it.
lost_tags :
    map (λ s. s.bubbled_tags) (get_graph rows links)
    ≡ (codes "db" ∷ []) ∷ [] ∷ (codes "db" ∷ []) ∷ []
unfolding get_graph stamp_all stamp culprit_name status_rank env_rank find_resource own merge
    roll_children remember roll roll_from add_tags tag_children remember_tags tags_of tags_from
    children_of child_index child_index_from add_child ◌==◌ get put includes is_empty or_text
lost_tags = refl
