-- ===== src/Permission/Meta.antt =====
-- What the groups of everyone add in nodejs/utils/permission.js.
use theta_directory.Base.{
  Bool, true, not, ◌&&◌, ◌||◌, List, Option, none, some, Text, codes, ◌==◌, includes, ok, ◌≡◌, ◌↔◌,
  arith,
}
use theta_directory.Groups.{Target, admin, access, site_everyone_cns}
use theta_directory.Groups.Lattice.{HasKind, holds, is_super, has_permission_iff}
use theta_directory.Permission.{
  Memberships, is_super_admin, meta_grants, on_resource, require_resource,
}

-- Reached by a grant of one's own.
abbrev pub is_lattice : Memberships → Target → Text → Bool
is_lattice member_of r level =
    is_super_admin member_of
    || (is_super member_of r
        || (holds member_of r level || (level == access && holds member_of r admin)))

on_resource_lem :
    (member_of : Memberships) (is_machine : Bool) (r : Target) (level : Text)
    (granted : Option (List Text))
    → HasKind r
    → on_resource member_of is_machine r level granted
      ≡ ok (is_lattice member_of r level || meta_grants is_machine r level granted)
unfolding on_resource
on_resource_lem member_of is_machine r level granted k =
    rw (has_permission_iff member_of r level k) (ground arith)

-- On a host or an app `requireResource` lets a caller pass exactly if the lattice admits them, or
-- if `access` was asked for, the caller is no machine and the resource is granted to everyone or to
-- everyone at its site.
pub require_resource_iff :
    (member_of : Memberships) (is_machine : Bool) (r : Target) (level : Text) (granted : List Text)
    → HasKind r
    → (require_resource member_of is_machine r level (some granted) ≡ none) ↔ (
        (is_lattice member_of r level
          || (level == access
              && not is_machine
              && (includes granted (codes "everyone")
                  || includes granted (site_everyone_cns r.site))))
        ≡ true)
unfolding require_resource meta_grants
require_resource_iff member_of is_machine r level granted k =
    rw (on_resource_lem member_of is_machine r level (some granted) k, require_resource)
      (ground arith)
