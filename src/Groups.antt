-- ===== src/Groups.antt =====
-- nodejs/utils/groups.js: the names of the permission groups and the inheritance of rights.
pub mod Slug
pub mod Lattice
mod Tests
use theta_directory.Base.{
  ℕ, ◌+◌, Bool, true, false, not, ◌&&◌, ◌||◌, List, [], ◌∷◌, ◌++◌, Option, none, some, ltb, leb,
  eqb, if◌then◌else◌, Text, codes, ◌==◌, includes, ends_with, to_lower, is_empty, strip_prefix,
  Result, ok, err, ◌>>=◌,
}

abbrev pub god_admin : Text
god_admin = codes "god_admin"

abbrev pub admin : Text
admin = codes "admin"

abbrev pub access : Text
access = codes "access"

abbrev pub host : Text
host = codes "host"

abbrev pub app : Text
app = codes "app"

abbrev pub dash : ℕ
dash = b'-'

abbrev pub underscore : ℕ
underscore = b'_'

-- The class `[a-z0-9]`.
unfoldable pub is_alnum : ℕ → Bool
is_alnum c = (leb b'a' c && leb c b'z') || (leb b'0' c && leb c b'9')

-- `.replace(/[^a-z0-9]+/g, '-')`; the flag says that the character before was replaced.
unfoldable pub squash : Bool → Text → Text
squash run [] = []
squash run (c ∷ s) =
    let rest = squash (not (is_alnum c)) s in
    if is_alnum c then c ∷ rest else if run then rest else dash ∷ rest

-- `.replace(/^-+|-+$/g, '')`, its two alternatives.
unfoldable pub trim_left : Text → Text
trim_left [] = []
trim_left (c ∷ s) = if eqb c dash then trim_left s else c ∷ s

unfoldable pub trim_right : Text → Text
trim_right [] = []
trim_right (c ∷ s) = let rest = trim_right s in if eqb c dash && is_empty rest then [] else c ∷ rest

unfoldable pub slugify : Text → Text
slugify name = trim_right (trim_left (squash false (to_lower name)))

-- `assertKind` throws on any other kind.
pub data Fault : Type 0 where
  invalid_kind : Text → Fault

unfoldable pub assert_kind : Text → Result Fault (Unit {0})
assert_kind kind = if includes (host ∷ app ∷ []) kind then ok tt else err (invalid_kind kind)

-- `.replace(/^(site|host|app)_/, '')`
unfoldable pub resource_name_slug : Text → Text
resource_name_slug slug = elim (strip_prefix (codes "site_") slug) [
  | some rest ↦ rest
  | none ↦ elim (strip_prefix (codes "host_") slug) [
    | some rest ↦ rest
    | none ↦ elim (strip_prefix (codes "app_") slug) [ some rest ↦ rest | none ↦ slug ]
  ]
]

-- The template strings, the kind already checked.
abbrev pub resource_cn : Text → Text → Text → Text → Text
resource_cn site kind slug level =
    site ++ underscore ∷ (kind ++ underscore ∷ (slug ++ underscore ∷ level))

abbrev pub aggregate_cn : Text → Text → Text → Text
aggregate_cn site kind level = site ++ underscore ∷ (kind ++ b's' ∷ underscore ∷ level)

unfoldable pub resource_group_cns : Text → Text → Text → Text → Result Fault Text
resource_group_cns site kind name_slug level =
    assert_kind kind >>= λ _. ok (resource_cn site kind (slugify name_slug) level)

unfoldable pub aggregate_group_cns : Text → Text → Text → Result Fault Text
aggregate_group_cns site kind level = assert_kind kind >>= λ _. ok (aggregate_cn site kind level)

unfoldable pub site_super_admin_cns : Text → Text
site_super_admin_cns site = site ++ codes "_super_admin"

unfoldable pub site_everyone_cns : Text → Text
site_everyone_cns site = site ++ codes "_everyone"

unfoldable pub is_known_level : Text → Bool
is_known_level level = includes (admin ∷ access ∷ []) level

unfoldable pub level_grants : Text → Text → Bool
level_grants level wanted = level == wanted || (level == admin && wanted == access)

-- The `resource` argument; a site that is null is the text of the template string.
pub record Target : Type 0 where
  pub site : Text
  pub kind : Text
  pub slug : Text

-- The directory's `service` is the group model's `app`.
unfoldable pub group_kind : Text → Text
group_kind kind = if kind == codes "service" then app else kind

-- `if (set.has(cn)) return true`, the rest after it.
abbrev pub or_member : List Text → Text → Result Fault Bool → Result Fault Bool
or_member member_of cn rest = if includes member_of cn then ok true else rest

-- The body of `hasPermission`; `as_admin` is its recursive call at `admin`.
unfoldable pub permission_step : Result Fault Bool → List Text → Target → Text → Result Fault Bool
permission_step as_admin member_of r level = or_member member_of god_admin (
    or_member member_of (site_super_admin_cns r.site) (
      aggregate_group_cns r.site (group_kind r.kind) level >>= λ aggregate.
      or_member member_of aggregate (
        resource_group_cns r.site (group_kind r.kind) (resource_name_slug r.slug) level >>= λ own.
        or_member member_of own
          (if is_known_level level && level == access then as_admin else ok false))))

-- The call at `admin` makes no further call.
unfoldable pub has_permission : List Text → Target → Text → Result Fault Bool
has_permission member_of r level =
    permission_step (permission_step (ok false) member_of r admin) member_of r level

unfoldable pub is_meta_group : Text → Bool
is_meta_group cn = cn == codes "everyone" || ends_with cn (codes "_everyone")
