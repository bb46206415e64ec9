-- ===== src/Virtual/Filter.antt =====
-- Which entries the filter of nodejs/utils/virtual_groups.js keeps.
use theta_directory.Base.{
  true, false, [], ◌∷◌, ◌≡◌, refl, ◌⊎◌, inl, inr, some, none, arith, Text, codes, ◌==◌, includes,
  strip_prefix, List, sym, subst, ok, err, eq_iff, ◌++◌, map,
}
use theta_directory.Groups.{
  god_admin, admin, host, app, underscore, slugify, resource_name_slug, resource_cn,
  site_super_admin_cns, group_kind, has_permission, invalid_kind, assert_kind, permission_step,
  aggregate_group_cns,
}
use theta_directory.Groups.Slug.{IsSlug, IsPlain, IsSlug-IsPlain, slugify-IsSlug'}
use theta_directory.Groups.Lattice.{has_permission_iff}
use theta_directory.Virtual.{
  Parsed, parse_group_cn, Entry, VirtualGroup, values, cn_of, target, check_group, inject,
  site_wide, site,
}
use theta_directory.Virtual.Parse.{
  IsSite, parse_group_cn-resource_cn, parse_group_cn-site_super_admin_cns,
}

-- A text with no underscore does not begin with a kind and an underscore.
strip_prefix-IsPlain : (k s : Text) → IsPlain s → strip_prefix (k ++ underscore ∷ []) s ≡ none
unfolding strip_prefix
strip_prefix-IsPlain [] [] h = refl
strip_prefix-IsPlain [] (d ∷ s) h = ground arith
strip_prefix-IsPlain (c ∷ k) [] h = refl
strip_prefix-IsPlain (c ∷ k) (d ∷ s) h = ground (arith, strip_prefix-IsPlain k s h.1)

resource_name_slug-IsPlain : (s : Text) → IsPlain s → resource_name_slug s ≡ s
unfolding resource_name_slug
resource_name_slug-IsPlain s h = ground (
  arith,
  strip_prefix-IsPlain (codes "site") s h,
  strip_prefix-IsPlain (codes "host") s h,
  strip_prefix-IsPlain (codes "app") s h,
)

slugify-resource_name_slug : (s : Text) → IsSlug s → slugify (resource_name_slug s) ≡ s
slugify-resource_name_slug s h =
    rw (resource_name_slug-IsPlain s (IsSlug-IsPlain s h)) (slugify-IsSlug' s h)

group_kind_lem : (k : Text) → (k ≡ host) ⊎ (k ≡ app) → group_kind k ≡ k
unfolding group_kind ◌==◌
group_kind_lem k (inl e) = rw e
group_kind_lem k (inr e) = rw e

module _ (s kind slug level : Text) (k : (kind ≡ host) ⊎ (kind ≡ app)) (q : IsSlug slug) where
  abbrev parsed : Parsed
  parsed = record { site = s; kind = kind; slug = some slug; level = level }

  has_permission-member :
      (m : List Text)
      → includes m (resource_cn s kind slug level) ≡ true
      → has_permission m (target parsed) level ≡ ok true
  unfolding target
  has_permission-member m h =
      rw (has_permission_iff m (target parsed) level (rw (group_kind_lem kind k) k))
        (rw (group_kind_lem kind k, slugify-resource_name_slug slug q, h) (ground arith))

assert_site : assert_kind site ≡ err (invalid_kind site)
unfolding assert_kind includes ◌==◌
assert_site = refl

throws :
    (s : Text) (m : List Text)
    → includes m god_admin ≡ false
    → includes m (site_super_admin_cns s) ≡ false
    → has_permission m (target (site_wide s site admin)) admin ≡ err (invalid_kind site)
unfolding has_permission permission_step aggregate_group_cns target group_kind ◌==◌
throws s m g n = rw assert_site (ground arith)

-- An entry whose own groups name the group that a search asks for is kept by the search, for the
-- group of any level of any host or app.
pub check_group_member :
    (s kind slug level : Text) (vg : VirtualGroup) (entry : Entry)
    → IsSite s
    → (kind ≡ host) ⊎ (kind ≡ app)
    → IsSlug slug
    → IsPlain level
    → vg.attribute ≡ codes "memberof"
    → some vg.parsed ≡ parse_group_cn (resource_cn s kind slug level)
    → includes (map cn_of (values entry.member_of)) (resource_cn s kind slug level) ≡ true
    → check_group vg entry ≡ ok (some (inject vg.original_value entry))
unfolding check_group
check_group_member s kind slug level vg entry hs k q p a e h =
    let same : vg.parsed ≡ parsed s kind slug level k q =
      cc (parse_group_cn-resource_cn s kind slug level hs k (IsSlug-IsPlain slug q) p) in
    let passes =
      subst (λ x. has_permission (map cn_of (values entry.member_of)) (target x) x.level ≡ ok true)
        (sym same)
        (has_permission-member s kind slug level k q (map cn_of (values entry.member_of)) h) in
    rw (passes, check_group) (ground (arith, eq_iff vg.attribute (codes "memberof")))

-- A search by `memberOf` for a site's administrators fails on an entry that is neither one of them
-- nor a global administrator: the check throws on the kind `site` in place of dropping the entry.
pub check_group-site_super_admin :
    (s : Text) (vg : VirtualGroup) (entry : Entry)
    → IsSite s
    → vg.attribute ≡ codes "memberof"
    → some vg.parsed ≡ parse_group_cn (site_super_admin_cns s)
    → includes (map cn_of (values entry.member_of)) god_admin ≡ false
    → includes (map cn_of (values entry.member_of)) (site_super_admin_cns s) ≡ false
    → check_group vg entry ≡ err (invalid_kind site)
unfolding check_group
check_group-site_super_admin s vg entry hs a e g n =
    let same : vg.parsed ≡ site_wide s site admin = cc (parse_group_cn-site_super_admin_cns s hs) in
    let fails =
      subst
        (λ x.
          has_permission (map cn_of (values entry.member_of)) (target x) x.level
          ≡ err (invalid_kind site))
        (sym same) (throws s (map cn_of (values entry.member_of)) g n) in
    rw (fails, check_group) (ground (arith, eq_iff vg.attribute (codes "memberof")))
