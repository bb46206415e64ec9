-- ===== src/Catalog/Ancestors.antt =====
-- What nodejs/models/resource.js reads from the ancestors of a resource.
pub mod Found
pub mod Site
pub mod Chain
pub mod Grows
pub mod Reached
pub mod Status
mod Tests
use theta_directory.Base.{
  ℕ, zero, suc, Bool, true, false, not, ◌&&◌, ◌||◌, List, [], ◌∷◌, ◌++◌, map, filter, find, Option,
  none, some, length, if◌then◌else◌, Text, codes, ◌==◌, includes, is_empty, or_text, get,
}
use theta_directory.Inheritance.{Edge}
use theta_directory.Catalog.{Resource, site_kind, host_kind}
use theta_directory.Catalog.Projection.{by_id_from}
use theta_directory.Catalog.Rollup.{find_resource}

-- `ResourceEdge.list({ where: { childId: id } })`, the parents in its order.
unfoldable pub parents_of : List Edge → Text → List Text
parents_of edges id = map (λ e. e.parent_id) (filter (λ e. e.child_id == id) edges)

-- A walk to the top visits the start and parents of edges, each once.
unfoldable pub climb_fuel : List Edge → ℕ
climb_fuel edges = suc (suc (length edges))

unfoldable pub is_site : List Resource → Text → Option Resource
is_site all id = elim (find_resource all id) [
  | none ↦ none
  | some r ↦ if r.kind == site_kind then some r else none
]

-- The loop of `findAncestorSiteSlug`: a parent that is a site answers, else what is above it does,
-- unless that is empty.
unfoldable pub climb :
    List Resource → (Text → List Text → Text × List Text) → List Text → List Text → Text × List Text
climb all visit [] visited = ([], visited)
climb all visit (p ∷ ps) visited = elim (is_site all p) [
  | some site ↦ (site.slug, visited)
  | none ↦
      let up = visit p visited in
      elim (is_empty up.0) [ true ↦ climb all visit ps up.1 | false ↦ up ]
]

module _ (all : List Resource) (edges : List Edge) where
  unfoldable pub site_above : ℕ → Text → List Text → Text × List Text
  site_above zero id visited = ([], visited)
  site_above (suc fuel) id visited = elim (is_empty id || includes visited id) [
    | true ↦ ([], visited)
    | false ↦ climb all (site_above fuel) (parents_of edges id) (id ∷ visited)
  ]

  -- An empty text stands for null.
  unfoldable pub find_ancestor_site_slug : Text → Text
  find_ancestor_site_slug id = (site_above (climb_fuel edges) id []).0

  unfoldable pub gather :
      (Text → List Text → List Resource × List Text)
      → List Text
      → List Text
      → List Resource × List Text
  gather visit [] visited = ([], visited)
  gather visit (p ∷ ps) visited =
      let up = visit p visited in
      let rest = gather visit ps up.1 in
      let found : List Resource = elim (find_resource all p) [ none ↦ [] | some r ↦ r ∷ [] ] in
      (found ++ (up.0 ++ rest.0), rest.1)

  unfoldable pub ancestors_from : ℕ → Text → List Text → List Resource × List Text
  ancestors_from zero id visited = ([], visited)
  ancestors_from (suc fuel) id visited = elim (is_empty id || includes visited id) [
    | true ↦ ([], visited)
    | false ↦ gather (ancestors_from fuel) (parents_of edges id) (id ∷ visited)
  ]

  unfoldable pub find_all_ancestors : Text → List Resource
  find_all_ancestors id = (ancestors_from (climb_fuel edges) id []).0

  -- The loop of `resolve` in `withResolvedAddress`.
  unfoldable pub first_address :
      (Text → List Text → Text × List Text) → List Text → List Text → Text × List Text
  first_address visit [] visited = ([], visited)
  first_address visit (p ∷ ps) visited =
      let up = visit p visited in
      elim (is_empty up.0) [ true ↦ first_address visit ps up.1 | false ↦ up ]

  unfoldable pub resolve : ℕ → Text → List Text → Text × List Text
  resolve zero id visited = ([], visited)
  resolve (suc fuel) id visited = elim (includes visited id) [
    | true ↦ ([], visited)
    | false ↦ elim (find_resource all id) [
      | none ↦ ([], id ∷ visited)
      | some r ↦
          let address = or_text r.metadata.address r.metadata.ip in
          elim (is_empty address) [
            | false ↦ (address, id ∷ visited)
            | true ↦ first_address (resolve fuel) (parents_of edges id) (id ∷ visited)
          ]
    ]
  ]

  unfoldable pub resolved_address : Text → Text
  resolved_address id = (resolve (suc (length all)) id []).0

-- The state of the breadth-first search in `withCatalogStatus`.
pub record Ring : Type 0 where
  pub seen : List Text
  pub out : List Resource
  pub next : List Text

-- Where a catalog status comes from.
pub data Via : Type 0 where
  own_state : Via
  no_state : Via
  ancestor : Via

-- `from` is empty for null.
pub record CatalogStatus : Type 0 where
  pub state : Text
  pub from : Text
  pub via : Via

unfoldable pub known : Text → Bool
known status = not (is_empty status) && not (status == codes "unknown")

-- `CATALOG_STATUS_NEGATIVE`
unfoldable pub negative : List Text
negative = codes "critical" ∷ codes "error" ∷ codes "warning" ∷ []

unfoldable pub is_trouble : Resource → Bool
is_trouble p = known p.metadata.status && includes negative p.metadata.status

module _ (all : List Resource) (edges : List Edge) where
  -- The body of the inner loop.
  unfoldable pub look_at : Ring → Text → Ring
  look_at ring pid = elim (includes ring.seen pid) [
    | true ↦ ring
    | false ↦ elim (get (by_id_from [] all) pid) [
      | none ↦ record ring { seen = pid ∷ ring.seen }
      | some p ↦ record {
        seen = pid ∷ ring.seen;
        out = if p.kind == host_kind || p.kind == site_kind then ring.out ++ p ∷ [] else ring.out;
        next = ring.next ++ parents_of edges pid;
      }
    ]
  ]

  unfoldable pub look_at_all : Ring → List Text → Ring
  look_at_all ring [] = ring
  look_at_all ring (pid ∷ pids) = look_at_all (look_at ring pid) pids

  unfoldable pub rings : ℕ → Ring → List Resource
  rings zero ring = ring.out
  rings (suc fuel) ring = elim ring.next [
    | [] ↦ ring.out
    | pid ∷ pids ↦ rings fuel (look_at_all (record ring { next = [] }) (pid ∷ pids))
  ]

  unfoldable pub ancestry : Text → List Resource
  ancestry id =
      rings (suc (suc (length all)))
        (record { seen = id ∷ []; out = []; next = parents_of edges id })

  -- The furthest ancestor in trouble, if the nearest one is.
  unfoldable pub blame : Resource → Resource → List Resource → Resource
  blame nearest culprit [] = culprit
  blame nearest culprit (p ∷ ps) =
      blame nearest (if not (p.id == nearest.id) && is_trouble p then p else culprit) ps

  unfoldable pub catalog_status : Bool → Resource → CatalogStatus
  catalog_status name_culprit r = elim (known r.metadata.status) [
    | true ↦ record { state = r.metadata.status; from = []; via = own_state }
    | false ↦ elim (find (λ p. known p.metadata.status) (ancestry r.id)) [
      | none ↦ record { state = codes "unknown"; from = []; via = no_state }
      | some nearest ↦
          let culprit =
            if includes negative nearest.metadata.status
            then blame nearest nearest (ancestry r.id)
            else nearest in
          record {
            state = culprit.metadata.status;
            from =
                if name_culprit && not (culprit.id == r.id)
                then or_text culprit.name culprit.slug
                else [];
            via = ancestor;
          }
    ]
  ]
