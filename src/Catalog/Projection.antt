-- ===== src/Catalog/Projection.antt =====
-- nodejs/services/access_projection.js: which resources a set of groups can reach.
pub mod Reach
pub mod Reasons
pub mod Complete
mod Tests
use theta_directory.Base.{
  ℕ, zero, suc, Bool, true, false, not, ◌&&◌, ◌||◌, List, [], ◌∷◌, map, filter, Option, none, some,
  any, length, ltb, if◌then◌else◌, Text, codes, ◌==◌, includes, is_empty, get, has, put, get_or,
  Result, ok, err,
}
use theta_directory.Groups.{Target, has_permission, Fault, host, access}
use theta_directory.Inheritance.{Edge, Level, Levels, effective_grants}
use theta_directory.Catalog.{Resource, site_kind, host_kind, service_kind}
use theta_directory.Catalog.Subtype.{Cache, template_for, has_live_agent}

pub record Agent : Type 0 where
  pub revoked : Bool
  pub resource_id : Text

-- `grants`, or the bare `groupIds`.
pub data Grants : Type 0 where
  ranked : Levels → Grants
  bare : List Text → Grants

pub record Caller : Type 0 where
  pub grants : Grants
  pub non_inheriting : Levels
  pub member_of : List Text
  pub agents : List Agent

unfoldable pub in_catalog : Resource → Bool
in_catalog r =
    let is_auto =
      ltb 0 (length r.metadata.discovery_sources)
      && not (includes r.metadata.discovery_sources (codes "manual")) in
    if r.metadata.lifecycle_state == codes "archived" && not r.metadata.managed
    then false
    else not (is_auto && not r.metadata.managed)

unfoldable pub direct_grants : Grants → Levels
direct_grants (ranked levels) = levels
direct_grants (bare ids) = map (λ id. (id, some access)) ids

unfoldable pub is_granted : Levels → Resource → Bool
is_granted inherited r = has inherited r.id || r.metadata.is_public

-- The resource ids of the agents that are enrolled.
unfoldable pub enrolled : List Agent → List Text
enrolled agents =
    filter (λ id. not (is_empty id)) (map (λ a. a.resource_id) (filter (λ a. not a.revoked) agents))

unfoldable pub agent_service_ids : List Resource → List Agent → List Text
agent_service_ids all agents =
    map (λ r. r.id)
      (filter
        (λ r.
          r.kind == service_kind
          && r.metadata.sub_type == codes "theta-agent"
          && includes (enrolled agents) r.id)
        all)

unfoldable pub by_id_from : List (Text × Resource) → List Resource → List (Text × Resource)
by_id_from index [] = index
by_id_from index (r ∷ rs) = by_id_from (put index r.id r) rs

unfoldable pub parent_of_from : List (Text × Text) → List Edge → List (Text × Text)
parent_of_from index [] = index
parent_of_from index (e ∷ es) =
    parent_of_from (if has index e.child_id then index else put index e.child_id e.parent_id) es

-- `byId.get(parentOf.get(id))`
unfoldable pub parent_resource : List Resource → List Edge → Text → Option Resource
parent_resource all edges id = elim (get (parent_of_from [] edges) id) [
  | none ↦ none
  | some parent ↦ get (by_id_from [] all) parent
]

-- The `for` loop, `hops` rounds before its cap.
unfoldable pub site_slug_from : ℕ → List Resource → List Edge → Option Resource → Option Text
site_slug_from zero all edges cur = none
site_slug_from (suc hops) all edges none = none
site_slug_from (suc hops) all edges (some r) =
    let above = site_slug_from hops all edges (parent_resource all edges r.id) in
    if r.kind == site_kind then some r.slug else above

-- A missing site is the text `null` where the group names are formed.
unfoldable pub site_slug_of : List Resource → List Edge → Resource → Text
site_slug_of all edges r = get_or (site_slug_from 32 all edges (some r)) (codes "null")

-- `hasPermission` throws for a kind that has no groups, which `host` is not.
unfoldable pub allows : Result Fault Bool → Bool
allows (ok b) = b
allows (err fault) = false

-- `metadata.hostId`, or the parent; an empty text if there is neither.
unfoldable pub host_of : List Edge → Resource → Text
host_of edges r =
    if is_empty r.metadata.host_id
    then get_or (get (parent_of_from [] edges) r.id) []
    else r.metadata.host_id

module _ (cache : Cache) (all : List Resource) (edges : List Edge) (caller : Caller) where
  unfoldable pub inherited_grants : Levels
  inherited_grants = effective_grants (direct_grants caller.grants) edges caller.non_inheriting

  unfoldable pub is_managed_host : Resource → Bool
  is_managed_host r =
      r.kind == host_kind
      && has_live_agent r (agent_service_ids all caller.agents) edges
      && (template_for cache r).ssh_capable

  unfoldable pub may_reach_host : Resource → Bool
  may_reach_host r = allows (
      has_permission caller.member_of
        (record { site = site_slug_of all edges r; kind = host; slug = r.slug }) access)

  -- The body of the first loop.
  unfoldable pub reach : List Text → Resource → List Text
  reach reachable r =
      if not (in_catalog r)
      then reachable
      else if is_granted inherited_grants r
      then r.id ∷ reachable
      else if is_managed_host r && may_reach_host r
      then r.id ∷ reachable
      else reachable

  unfoldable pub reach_all : List Text → List Resource → List Text
  reach_all reachable [] = reachable
  reach_all reachable (r ∷ rs) = reach_all (reach reachable r) rs

  -- The body of the second loop.
  unfoldable pub follow : List Text → Resource → List Text
  follow reachable r =
      let host_id = host_of edges r in
      if includes reachable r.id || not (in_catalog r) || not (template_for cache r).inherits_host
      then reachable
      else if not (is_empty host_id) && includes reachable host_id
      then r.id ∷ reachable
      else reachable

  unfoldable pub follow_all : List Text → List Resource → List Text
  follow_all reachable [] = reachable
  follow_all reachable (r ∷ rs) = follow_all (follow reachable r) rs

  unfoldable pub reachable_ids : List Text
  reachable_ids = follow_all (reach_all [] all) all

  unfoldable pub accessible_resources : List Resource
  accessible_resources = filter (λ r. includes reachable_ids r.id) all
