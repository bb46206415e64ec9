-- ===== src/Mesh/Roster/Adopt.antt =====
-- What `adoptRoster` and `publishLocalSite` of nodejs/utils/mesh_roster.js leave alone.
use theta_directory.Base.{
  ℕ, false, List, [], ◌∷◌, ◌++◌, ◌≡◌, refl, ◌∙◌, ◌≢◌, inl, inr, none, some, arith, eqb, Text,
  is_empty, Bool-cases,
}
use theta_directory.Mesh.Roster.{
  MeshSite, SiteConfig, Patch, by_site_id, update_site, adopt_row, adopt_roster, apply_patch,
  published_dns,
}

by_site_id-update_site_ne :
    (ms : List MeshSite) (row : MeshSite) (id : ℕ)
    → row.site_id ≢ id
    → by_site_id (update_site ms row.site_id (λ m. row)) id ≡ by_site_id ms id
unfolding by_site_id update_site
by_site_id-update_site_ne [] row id h = refl
by_site_id-update_site_ne (m ∷ ms) row id h = ground (arith, by_site_id-update_site_ne ms row id h)

by_site_id-append_ne :
    (ms : List MeshSite) (row : MeshSite) (id : ℕ)
    → row.site_id ≢ id
    → by_site_id (ms ++ row ∷ []) id ≡ by_site_id ms id
unfolding by_site_id
by_site_id-append_ne [] row id h = ground arith
by_site_id-append_ne (m ∷ ms) row id h = ground (arith, by_site_id-append_ne ms row id h)

adopt_row-own :
    (own : ℕ) (ms : List MeshSite) (row : MeshSite)
    → by_site_id (adopt_row (some own) ms row) own ≡ by_site_id ms own
unfolding adopt_row
adopt_row-own own ms row = elim (Bool-cases (eqb row.site_id own)) [
  | inl same ↦ ground (arith, same)
  | inr other ↦
      let differ : row.site_id ≢ own = λ e. ground (arith, other) in
      ground (
        arith,
        other,
        by_site_id-update_site_ne ms row own differ,
        by_site_id-append_ne ms row own differ,
      )
]

-- A master's export never changes the row of the site that adopts it.
pub adopt_roster-own :
    (own : ℕ) (ms rows : List MeshSite)
    → by_site_id (adopt_roster (some own) ms rows) own ≡ by_site_id ms own
unfolding adopt_roster
adopt_roster-own own ms [] = refl
adopt_roster-own own ms (row ∷ rows) =
    adopt_roster-own own (adopt_row (some own) ms row) rows ∙ adopt_row-own own ms row

-- A gateway that publishes only what it detects cannot replace a resolver that was named.
pub apply_patch-dns_host :
    (cfg : SiteConfig) (patch : Patch) (now : ℕ) (name : Text) (m : MeshSite)
    → patch.dns_host ≡ none
    → is_empty m.dns_host ≡ false
    → (apply_patch cfg patch now name m).dns_host ≡ m.dns_host
unfolding apply_patch published_dns
apply_patch-dns_host cfg patch now name m h k = ground arith
