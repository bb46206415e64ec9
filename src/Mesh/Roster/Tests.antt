-- ===== src/Mesh/Roster/Tests.antt =====
-- A cluster of two sites, for nodejs/utils/mesh_roster.js.
use theta_directory.Base.{true, List, [], ◌∷◌, codes, ◌≡◌, refl, ok}
use theta_directory.Mesh.Roster.{MeshSite, blank, by_site_id, clear_hubs, update_site, set_hub}

abbrev sites : List MeshSite
sites = record (blank 1) { is_hub = true } ∷ blank 2 ∷ []

abbrev moved : List MeshSite
moved = blank 1 ∷ record (blank 2) { is_hub = true } ∷ []

sites_moved : set_hub sites 2 ≡ ok moved
unfolding set_hub by_site_id clear_hubs update_site
sites_moved = refl

abbrev export : List MeshSite
export = record (blank 2) { country = codes "NL" } ∷ record (blank 3) { country = codes "DE" } ∷ []
