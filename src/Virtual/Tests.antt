-- ===== src/Virtual/Tests.antt =====
-- Searches for virtual groups, in nodejs/utils/virtual_groups.js.
use theta_directory.Base.{
  [], ◌∷◌, map, some, codes, ◌==◌, includes, strip_prefix, to_lower, is_empty, ◌≡◌, refl, sym, true,
  false, inl, inr, err, arith,
}
use theta_directory.Groups.{
  admin, access, host, is_alnum, site_super_admin_cns, resource_cn, invalid_kind, god_admin,
}
use theta_directory.Groups.Slug.{IsSlug, IsPlain}
use theta_directory.Virtual.{
  site, kind_at, find_kind, parse_group_cn, site_wide, Entry, single, VirtualGroup, values, cn_of,
  until_comma, check_group,
}
use theta_directory.Virtual.Parse.{
  IsSite, parse_group_cn-resource_cn, parse_group_cn-site_super_admin_cns,
}
use theta_directory.Virtual.Filter.{check_group-site_super_admin}

hq_IsSite : IsSite (codes "hq")
unfolding find_kind kind_at strip_prefix
hq_IsSite = refl

web_IsPlain : IsPlain (codes "web")
web_IsPlain = (ground arith, (ground arith, (ground arith, tt)))

access-IsPlain : IsPlain access
access-IsPlain = (
  ground arith,
  (ground arith, (ground arith, (ground arith, (ground arith, (ground arith, tt))))),
)

web_IsSlug : IsSlug (codes "web")
unfolding is_alnum
web_IsSlug = inr (inl (refl, inl (refl, inl (refl, refl))))

parse_group_cn-resource_cn_example :
    parse_group_cn (resource_cn (codes "hq") host (codes "web") access)
    ≡ some (record { site = codes "hq"; kind = host; slug = some (codes "web"); level = access })
parse_group_cn-resource_cn_example =
    parse_group_cn-resource_cn (codes "hq") host (codes "web") access hq_IsSite (inl refl)
      web_IsPlain access-IsPlain

abbrev ada : Entry
ada = record {
  dn = codes "uid=ada,dc=x";
  object_class = codes "person" ∷ [];
  cn = codes "ada";
  member = [];
  member_of = single (codes "cn=hq_host_web_access,ou=groups");
}

abbrev web_group : VirtualGroup
web_group = record {
  cn = codes "hq_host_web_access";
  parsed = record { site = codes "hq"; kind = host; slug = some (codes "web"); level = access };
  attribute = codes "memberof";
  original_value = codes "cn=hq_host_web_access,ou=groups";
}

web_parsed :
    some web_group.parsed ≡ parse_group_cn (resource_cn (codes "hq") host (codes "web") access)
web_parsed = sym parse_group_cn-resource_cn_example

ada_in_web :
    includes (map cn_of (values ada.member_of)) (resource_cn (codes "hq") host (codes "web") access)
    ≡ true
unfolding includes values cn_of until_comma to_lower is_empty ◌==◌
ada_in_web = refl

abbrev admins : VirtualGroup
admins = record {
  cn = codes "hq_super_admin";
  parsed = site_wide (codes "hq") site admin;
  attribute = codes "memberof";
  original_value = codes "cn=hq_super_admin,ou=groups";
}

admins_parsed : some admins.parsed ≡ parse_group_cn (site_super_admin_cns (codes "hq"))
admins_parsed = sym (parse_group_cn-site_super_admin_cns (codes "hq") hq_IsSite)

ada_no_god : includes (map cn_of (values ada.member_of)) god_admin ≡ false
unfolding includes values cn_of until_comma to_lower is_empty ◌==◌
ada_no_god = refl

ada_no_admin :
    includes (map cn_of (values ada.member_of)) (site_super_admin_cns (codes "hq")) ≡ false
unfolding includes values cn_of until_comma to_lower is_empty ◌==◌ site_super_admin_cns
ada_no_admin = refl

check_group-site_super_admin_example : check_group admins ada ≡ err (invalid_kind site)
check_group-site_super_admin_example =
    check_group-site_super_admin (codes "hq") admins ada hq_IsSite refl admins_parsed ada_no_god
      ada_no_admin
