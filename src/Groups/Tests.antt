-- ===== src/Groups/Tests.antt =====
-- A host of a site and a user in its groups, in nodejs/utils/groups.js.
use theta_directory.Base.{
  true, ◌||◌, ◌&&◌, List, [], ◌∷◌, Text, codes, ◌==◌, includes, to_lower, strip_prefix, is_empty,
  ◌≡◌, refl, inl, ok,
}
use theta_directory.Groups.{
  Target, admin, access, group_kind, slugify, has_permission, permission_step, site_super_admin_cns,
  aggregate_group_cns, assert_kind, resource_group_cns, trim_right, trim_left, squash, is_alnum,
  resource_name_slug, is_known_level,
}
use theta_directory.Groups.Lattice.{holds, is_super, has_permission_iff}

abbrev box : Target
box = record { site = codes "hq"; kind = codes "host"; slug = codes "host_box-1" }

abbrev memberships : List Text
memberships = codes "hq_host_box-1_admin" ∷ []

abbrev more_memberships : List Text
more_memberships = codes "staff" ∷ memberships

has_permission_iff_example :
    has_permission memberships box access
    ≡ ok (
        is_super memberships box
        || (holds memberships box access || (access == access && holds memberships box admin)))
unfolding group_kind ◌==◌
has_permission_iff_example = has_permission_iff memberships box access (inl refl)

box_reached : has_permission memberships box access ≡ ok true
unfolding has_permission permission_step includes ◌==◌ site_super_admin_cns aggregate_group_cns
    assert_kind group_kind resource_group_cns slugify trim_right trim_left squash to_lower
    resource_name_slug strip_prefix is_alnum is_empty is_known_level
box_reached = refl
