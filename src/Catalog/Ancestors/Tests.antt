-- ===== src/Catalog/Ancestors/Tests.antt =====
-- A service on a host of a site, for nodejs/models/resource.js.
use theta_directory.Base.{
  false, List, [], ◌∷◌, some, Text, codes, ◌==◌, is_empty, includes, In, All-In, find-In, ◌≡◌, refl,
  ◌⊎◌, Option-cases, Bool-cases, inl, inr, subst, none≢some, some-injective,
}
use theta_directory.Inheritance.{Edge}
use theta_directory.Catalog.{Resource, Metadata, plain_metadata, host_kind, site_kind, service_kind}
use theta_directory.Catalog.Rollup.{find_resource}
use theta_directory.Catalog.Ancestors.{
  parents_of, climb_fuel, is_site, climb, site_above, find_ancestor_site_slug, catalog_status,
}
use theta_directory.Catalog.Ancestors.Found.{HasSite}
use theta_directory.Catalog.Ancestors.Site.{find_ancestor_site_slug_iff}
use theta_directory.Catalog.Ancestors.Status.{IsHonest, catalog_status-IsHonest}

abbrev row : Text → Text → Metadata → Resource
row id kind metadata = record { id = id; kind = kind; name = id; slug = id; metadata = metadata }

abbrev app : Resource
app = row (codes "app") service_kind (record plain_metadata { status = codes "unknown" })

abbrev rows : List Resource
rows =
    app
    ∷ row (codes "box") host_kind
        (record plain_metadata { status = codes "critical"; ip = codes "10.0.0.5" })
    ∷ row (codes "oslo") site_kind plain_metadata
    ∷ []

abbrev links : List Edge
links =
    record { parent_id = codes "box"; child_id = codes "app" }
    ∷ record { parent_id = codes "oslo"; child_id = codes "box" }
    ∷ record { parent_id = codes "app"; child_id = codes "oslo" }
    ∷ []

is_site-In :
    (all : List Resource) (p : Text) (site : Resource) → is_site all p ≡ some site → In site all
unfolding is_site find_resource
is_site-In all p site h = elim (Option-cases (find_resource all p)) [
  | inl missing ↦ absurd (none≢some (rw (missing, is_site) at h))
  | inr (r, found) ↦ elim (Bool-cases (r.kind == site_kind)) [
    | inl kind ↦
        let same : r ≡ site = some-injective (rw (found, kind, is_site) at h) in
        subst (λ s. In s all) same (find-In (λ s. s.id == p) all r found).0
    | inr other ↦ absurd (none≢some (rw (found, other, is_site) at h))
  ]
]

slugged : (p : Text) (site : Resource) → is_site rows p ≡ some site → is_empty site.slug ≡ false
unfolding is_empty
slugged p site h =
    All-In (λ r. is_empty r.slug ≡ false) rows site (refl, (refl, (refl, tt)))
      (is_site-In rows p site h)

find_ancestor_site_slug_iff_example :
    HasSite rows links (codes "app") (find_ancestor_site_slug rows links (codes "app"))
    ⊎ ((find_ancestor_site_slug rows links (codes "app") ≡ [])
        × ((t : Text) → HasSite rows links (codes "app") t → ⊥))
find_ancestor_site_slug_iff_example = find_ancestor_site_slug_iff rows links slugged (codes "app")

site_of_app : find_ancestor_site_slug rows links (codes "app") ≡ codes "oslo"
unfolding find_ancestor_site_slug climb_fuel site_above climb is_site find_resource parents_of ◌==◌
    is_empty includes
site_of_app = refl

catalog_status-IsHonest_example :
    IsHonest rows links app
      (catalog_status rows links false app)
      (catalog_status rows links false app).via
    × (false ≡ false → (catalog_status rows links false app).from ≡ [])
catalog_status-IsHonest_example = catalog_status-IsHonest rows links false app
