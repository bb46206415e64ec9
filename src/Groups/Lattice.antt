-- ===== src/Groups/Lattice.antt =====
-- What `hasPermission` of nodejs/utils/groups.js grants.
use theta_directory.Base.{
  Bool, true, false, ◌&&◌, ◌||◌, List, ◌≡◌, ◌⊎◌, inl, inr, arith, if◌then◌else◌, Text, ◌==◌, eq_iff,
  includes, Result, ok, Bool-cases,
}
use theta_directory.Groups.{
  god_admin, admin, access, host, app, slugify, Fault, assert_kind, resource_name_slug, resource_cn,
  aggregate_cn, resource_group_cns, aggregate_group_cns, site_super_admin_cns, is_known_level,
  Target, group_kind, permission_step, has_permission,
}

-- The kind, as the group model reads it, has groups of its own.
abbrev pub HasKind : Target → Type 0
HasKind r = (group_kind r.kind ≡ host) ⊎ (group_kind r.kind ≡ app)

known_access : (level : Text) → (is_known_level level && level == access) ≡ (level == access)
unfolding is_known_level includes ◌==◌
known_access level = elim (Bool-cases (level == access)) [
  | inl e ↦ rw ((eq_iff level access).0 e)
  | inr e ↦ rw e (ground arith)
]

module _ (member_of : List Text) (r : Target) where
  -- A group that gives `level` on every resource of the kind at the site, or on this one.
  abbrev pub holds : Text → Bool
  holds level =
      includes member_of (aggregate_cn r.site (group_kind r.kind) level)
      || includes member_of
          (resource_cn r.site (group_kind r.kind) (slugify (resource_name_slug r.slug)) level)

  abbrev pub is_super : Bool
  is_super = includes member_of god_admin || includes member_of (site_super_admin_cns r.site)

  assert_kind_lem : HasKind r → assert_kind (group_kind r.kind) ≡ ok tt
  unfolding assert_kind includes ◌==◌
  assert_kind_lem (inl e) = rw e
  assert_kind_lem (inr e) = rw e

  step_lem :
      (rest : Result Fault Bool) (level : Text)
      → HasKind r
      → permission_step rest member_of r level ≡ (
          if is_super || holds level
          then ok true
          else if is_known_level level && level == access
          then rest
          else ok false)
  unfolding permission_step aggregate_group_cns resource_group_cns
  step_lem rest level h = rw (assert_kind_lem h) (ground arith)

  -- On a host or an app the answer is the lattice: the global administrators, those of the site,
  -- the groups of the level, and for `access` those of `admin`.
  pub has_permission_iff :
      (level : Text)
      → HasKind r
      → has_permission member_of r level
        ≡ ok (is_super || (holds level || (level == access && holds admin)))
  unfolding has_permission
  has_permission_iff level h =
      rw
        (
          step_lem (permission_step (ok false) member_of r admin) level h,
          step_lem (ok false) admin h,
          known_access level,
        )
        (ground arith)

-- More memberships never take a right on a host or an app away.
pub has_permission_mono :
    (m n : List Text) (r : Target) (level : Text)
    → HasKind r
    → ((cn : Text) → includes m cn ≡ true → includes n cn ≡ true)
    → has_permission m r level ≡ ok true
    → has_permission n r level ≡ ok true
has_permission_mono m n r level k sub h = rw (has_permission_iff n r level k) (
    ground (
      arith,
      rw (has_permission_iff m r level k) at h,
      sub god_admin,
      sub (site_super_admin_cns r.site),
      sub (aggregate_cn r.site (group_kind r.kind) level),
      sub (resource_cn r.site (group_kind r.kind) (slugify (resource_name_slug r.slug)) level),
      sub (aggregate_cn r.site (group_kind r.kind) admin),
      sub (resource_cn r.site (group_kind r.kind) (slugify (resource_name_slug r.slug)) admin),
    ))
