-- ===== src/Agents/Services.antt =====
-- `pruneServicesNotReported` of nodejs/utils/agent_manager.js.
pub mod Kept
mod Tests
use theta_directory.Base.{
  Bool, true, false, not, ◌&&◌, ◌||◌, List, [], ◌∷◌, ◌++◌, map, filter, if◌then◌else◌, Text, codes,
  ◌==◌, includes, is_empty, or_text,
}
use theta_directory.Inheritance.{Edge}
use theta_directory.Catalog.{Metadata, Resource}
use theta_directory.Agents.Binding.{Estate, is_agent_service, agent_subtype}

-- The child of the host that this source found, and that is not the agent's own service.
unfoldable pub is_mine : Text → List Text → Resource → Bool
is_mine host_id child_ids r =
    (r.metadata.host_id == host_id || includes child_ids r.id)
    && not (is_agent_service r)
    && includes r.metadata.discovery_sources agent_subtype

unfoldable pub service_label : Resource → Text
service_label r =
    or_text r.metadata.service_name
      (or_text r.metadata.docker_container (or_text r.metadata.systemd_service r.name))

unfoldable pub report_key : Resource → Text
report_key r = or_text r.metadata.sub_type (codes "systemd") ++ (codes "/" ++ service_label r)

unfoldable pub is_reported : List Text → Resource → Bool
is_reported reported r = is_empty (service_label r) || includes reported (report_key r)

unfoldable pub other_sources : Resource → List Text
other_sources r = filter (λ x. not (x == agent_subtype)) r.metadata.discovery_sources

abbrev pub is_nobody : List Text → Bool
is_nobody [] = true
is_nobody (x ∷ xs) = false

-- The row without the agent among its sources.
abbrev pub released : Resource → Resource
released r = record r { metadata = record r.metadata { discovery_sources = other_sources r } }

unfoldable pub release : Resource → Estate → Estate
release r e = record e {
  resources =
      map (λ q. if q.id == r.id then record q { metadata = (released r).metadata } else q)
        e.resources;
}

-- The edges of a row, and then the row.
unfoldable pub remove : Text → Estate → Estate
remove id e = record {
  resources = filter (λ q. not (q.id == id)) e.resources;
  edges = filter (λ d. not (d.child_id == id || d.parent_id == id)) e.edges;
}

-- The body of the loop.
unfoldable pub prune_one : List Text → Resource → Estate → Estate
prune_one reported r e =
    if is_reported reported r
    then e
    else if is_nobody (other_sources r)
    then remove r.id e
    else release r e

unfoldable pub prune_all : List Text → List Resource → Estate → Estate
prune_all reported [] e = e
prune_all reported (r ∷ rs) e = prune_all reported rs (prune_one reported r e)

-- The host, the ids below it, what the agent reported, and the rows of the services.
unfoldable pub prune_services : Text → List Text → List Text → List Resource → Estate → Estate
prune_services host_id child_ids reported services e =
    prune_all reported (filter (is_mine host_id child_ids) services) e
