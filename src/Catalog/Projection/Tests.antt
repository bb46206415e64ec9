-- ===== src/Catalog/Projection/Tests.antt =====
-- A site with a host, its agent and a service, in nodejs/services/access_projection.js.
use theta_directory.Base.{
  true, false, List, [], ◌∷◌, none, codes, ◌==◌, includes, to_lower, is_empty, get, has, put, ◌≡◌,
  refl, In, inl, inr, ok, strip_prefix,
}
use theta_directory.Groups.{
  host, access, group_kind, slugify, has_permission, permission_step, site_super_admin_cns,
  aggregate_group_cns, assert_kind, resource_group_cns, trim_right, trim_left, squash, is_alnum,
  resource_name_slug, is_known_level,
}
use theta_directory.Inheritance.{Edge}
use theta_directory.Catalog.{Resource, plain_metadata, site_kind, host_kind, service_kind}
use theta_directory.Catalog.Subtype.{template_for, cached_template}
use theta_directory.Catalog.Projection.{
  Agent, Caller, bare, direct_grants, site_slug_of, site_slug_from, parent_resource, parent_of_from,
  by_id_from, host_of, accessible_resources,
}
use theta_directory.Catalog.Projection.Reach.{Reachable, accessible_sound}
use theta_directory.Catalog.Projection.Reasons.{RunsAgent, by_groups, Reason, on_host, Offered}
use theta_directory.Catalog.Projection.Complete.{accessible_complete}

abbrev hq : Resource
hq = record {
  id = codes "s1";
  kind = site_kind;
  name = codes "hq";
  slug = codes "hq";
  metadata = plain_metadata;
}

abbrev box : Resource
box = record {
  id = codes "h1";
  kind = host_kind;
  name = codes "box";
  slug = codes "host_box-1";
  metadata = record plain_metadata { sub_type = codes "linux" };
}

abbrev agent_service : Resource
agent_service = record {
  id = codes "a1";
  kind = service_kind;
  name = codes "agent";
  slug = codes "theta-agent-box";
  metadata = record plain_metadata { sub_type = codes "theta-agent" };
}

abbrev shell : Resource
shell = record {
  id = codes "c1";
  kind = service_kind;
  name = codes "shell";
  slug = codes "box-shell";
  metadata = record plain_metadata { sub_type = codes "systemd"; host_id = codes "h1" };
}

abbrev rows : List Resource
rows = hq ∷ box ∷ agent_service ∷ shell ∷ []

abbrev edges : List Edge
edges =
    record { parent_id = codes "s1"; child_id = codes "h1" }
    ∷ record { parent_id = codes "h1"; child_id = codes "a1" }
    ∷ []

abbrev agent : Agent
agent = record { revoked = false; resource_id = codes "a1" }

abbrev caller : Caller
caller = record {
  grants = bare [];
  non_inheriting = [];
  member_of = codes "hq_host_box-1_access" ∷ [];
  agents = agent ∷ [];
}

box_takes_shells : (template_for none box).ssh_capable ≡ true
unfolding template_for cached_template ◌==◌ includes to_lower
box_takes_shells = refl

box-RunsAgent : RunsAgent none rows edges caller box
unfolding is_empty
box-RunsAgent = record {
  is_host = refl;
  takes_shells = box_takes_shells;
  agent = agent;
  is_agent = inl refl;
  is_live = refl;
  service = agent_service;
  is_row = inr (inr (inl refl));
  is_service = refl;
  is_for_agents = refl;
  is_named = refl;
  is_bound = refl;
  edge = record { parent_id = codes "h1"; child_id = codes "a1" };
  is_edge = inr (inl refl);
  from_host = refl;
  to_service = refl;
}

box_site : site_slug_of rows edges box ≡ codes "hq"
unfolding site_slug_of site_slug_from parent_resource parent_of_from by_id_from get has put ◌==◌
box_site = refl

box_allowed :
    has_permission
      (codes "hq_host_box-1_access" ∷ [])
      (record { site = codes "hq"; kind = host; slug = codes "host_box-1" })
      access
    ≡ ok true
unfolding has_permission permission_step includes ◌==◌ site_super_admin_cns aggregate_group_cns
    assert_kind group_kind resource_group_cns slugify trim_right trim_left squash to_lower
    resource_name_slug strip_prefix is_alnum is_empty is_known_level
box_allowed = refl

box_reason : Reason none rows edges caller box
box_reason = by_groups box-RunsAgent (rw box_site box_allowed)

shell_inherits : (template_for none shell).inherits_host ≡ true
unfolding template_for cached_template ◌==◌ includes to_lower
shell_inherits = refl

shell_host : host_of edges shell ≡ codes "h1"
unfolding host_of is_empty
shell_host = refl

shell-Offered : Offered none rows edges caller shell
unfolding ◌==◌ is_empty
shell-Offered =
    on_host box (inr (inl refl)) (inr (refl, inl refl)) box_reason shell_inherits shell_host refl

accessible_complete_example : In shell (accessible_resources none rows edges caller)
unfolding ◌==◌ direct_grants
accessible_complete_example =
    accessible_complete none rows edges caller shell (inr (inr (inr (inl refl))))
      (inr (refl, inl refl)) tt shell-Offered

accessible_sound_example : In shell rows × Reachable none rows edges caller shell.id
unfolding ◌==◌ direct_grants
accessible_sound_example = accessible_sound none rows edges caller shell (
    accessible_complete none rows edges caller shell (inr (inr (inr (inl refl))))
      (inr (refl, inl refl)) tt shell-Offered)
