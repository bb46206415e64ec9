-- ===== src/Agents/Binding/Tests.antt =====
-- A host without an agent, for nodejs/utils/agent_binding.js.
use theta_directory.Base.{[], ◌∷◌, some, none, codes, ◌==◌, is_empty, ◌≡◌, refl}
use theta_directory.Catalog.{Resource, plain_metadata, host_kind}
use theta_directory.Catalog.Rollup.{find_resource}
use theta_directory.Agents.Binding.{Estate, first_row, child_ids, parent_ids, find_agent_service}
use theta_directory.Agents.Binding.Ensure.{IsFresh}

abbrev box : Resource
box = record {
  id = codes "h1";
  kind = host_kind;
  name = codes "box";
  slug = codes "host-box";
  metadata = plain_metadata;
}

abbrev estate : Estate
estate = record { resources = box ∷ []; edges = [] }

is_new : find_resource estate.resources (codes "x1") ≡ none
unfolding find_resource ◌==◌
is_new = refl

is_known : find_resource estate.resources box.id ≡ some box
unfolding find_resource ◌==◌
is_known = refl

x1-IsFresh : IsFresh estate (codes "x1")
unfolding is_empty parent_ids
x1-IsFresh = (refl, is_new, refl)

absent : find_agent_service estate box ≡ none
unfolding find_agent_service first_row child_ids
absent = refl
