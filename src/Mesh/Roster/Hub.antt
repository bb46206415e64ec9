-- ===== src/Mesh/Roster/Hub.antt =====
-- `setHub` of nodejs/utils/mesh_roster.js leaves one hub.
use theta_directory.Base.{
  ℕ, suc, true, false, List, [], ◌∷◌, ◌≡◌, refl, inl, inr, is_some, arith, if◌then◌else◌, eqb,
  eqb_iff, ok, Bool-cases,
}
use theta_directory.Mesh.Roster.{MeshSite, by_site_id, update_site, clear_hubs, set_hub}

-- How many rows carry the flag.
abbrev pub hubs : List MeshSite → ℕ
hubs [] = 0
hubs (m ∷ ms) = if m.is_hub then suc (hubs ms) else hubs ms

-- No two rows have one site id: the column is unique.
abbrev pub HasUniqueIds : List MeshSite → Type 0
HasUniqueIds [] = Unit
HasUniqueIds (m ∷ ms) = (is_some (by_site_id ms m.site_id) ≡ false) × HasUniqueIds ms

clear_hubs_absent :
    (id : ℕ) (ms : List MeshSite) → is_some (by_site_id ms id) ≡ false → hubs (clear_hubs id ms) ≡ 0
unfolding clear_hubs by_site_id
clear_hubs_absent id [] h = refl
clear_hubs_absent id (m ∷ ms) h = ground (arith, clear_hubs_absent id ms)

abbrev make_hub : MeshSite → MeshSite
make_hub m = record m { is_hub = true }

one_hub :
    (id : ℕ) (ms : List MeshSite)
    → HasUniqueIds ms
    → is_some (by_site_id ms id) ≡ true
    → hubs (update_site (clear_hubs id ms) id make_hub) ≡ 1
unfolding clear_hubs update_site by_site_id
one_hub id [] u h = cc
one_hub id (m ∷ ms) (fresh, u) h = elim (Bool-cases (eqb m.site_id id)) [
  | inl same ↦
      let here : m.site_id ≡ id = (eqb_iff m.site_id id).0 same in
      ground (arith, same, here, clear_hubs_absent id ms)
  | inr other ↦ ground (arith, other, one_hub id ms u)
]

-- After a site is made the hub there is one hub, whatever flags there were, if no two rows share a
-- site id.
pub set_hub_one :
    (ms ns : List MeshSite) (id : ℕ) → HasUniqueIds ms → set_hub ms id ≡ ok ns → hubs ns ≡ 1
unfolding set_hub
set_hub_one ms ns id u h = ground (arith, one_hub id ms u)
