-- ===== src/Permission.antt =====
-- nodejs/utils/permission.js: who may act on a route or a resource.
pub mod Meta
mod Tests
use theta_directory.Base.{
  Bool, true, false, not, ◌&&◌, ◌||◌, List, [], ◌∷◌, any, Option, none, some, if◌then◌else◌, Text,
  codes, ◌==◌, includes, Result, ok, err, ◌>>=◌,
}
use theta_directory.Groups.{Fault, Target, god_admin, access, has_permission, site_everyone_cns}

-- The groups of the user, resolved by the directory; none if it could not be asked.
abbrev pub Memberships : Type 0
Memberships = List Text

abbrev pub legacy_super_admin_aliases : List Text
legacy_super_admin_aliases = codes "app_super_admin" ∷ []

unfoldable pub is_super_admin : Memberships → Bool
is_super_admin member_of =
    includes member_of god_admin || any (includes legacy_super_admin_aliases) member_of

-- `owner_list` is the directory's list of the owners of a group, `none` if there is no such group.
unfoldable pub owns : (Text → Option (List Text)) → Text → Text → Bool
owns owner_list dn group = elim (owner_list group) [
  | none ↦ false
  | some owners ↦ includes owners dn
]

-- Whether `byGroup` returns; it throws otherwise.
unfoldable pub by_group :
    Memberships → Text → List Text → (Text → Option (List Text)) → List Text → Bool
by_group member_of dn check_groups owner_list owner_of =
    if is_super_admin member_of
    then true
    else if any (includes member_of) check_groups
    then true
    else any (owns owner_list dn) owner_of

-- `none` for `granted` is a call without the list.
unfoldable pub meta_grants : Bool → Target → Text → Option (List Text) → Bool
meta_grants is_machine r level none = false
meta_grants is_machine r level (some granted) =
    level == access
    && not is_machine
    && (includes granted (codes "everyone") || includes granted (site_everyone_cns r.site))

unfoldable pub on_resource :
    Memberships → Bool → Target → Text → Option (List Text) → Result Fault Bool
on_resource member_of is_machine r level granted =
    if is_super_admin member_of
    then ok true
    else (has_permission member_of r level >>= λ has.
        ok (if has then true else meta_grants is_machine r level granted))

pub data Denied : Type 0 where
  insufficient_permission : Denied
  failed : Fault → Denied

-- `none` if the call returns.
unfoldable pub require_resource :
    Memberships → Bool → Target → Text → Option (List Text) → Option Denied
require_resource member_of is_machine r level granted =
    elim (on_resource member_of is_machine r level granted) [
      | ok allowed ↦ if allowed then none else some insufficient_permission
      | err fault ↦ some (failed fault)
    ]
