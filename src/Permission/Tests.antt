-- ===== src/Permission/Tests.antt =====
-- A person and a machine before a resource of everyone, for nodejs/utils/permission.js.
use theta_directory.Base.{
  true, false, not, ◌&&◌, ◌||◌, List, [], ◌∷◌, none, some, Text, codes, ◌==◌, includes, ◌≡◌, ◌↔◌,
  refl, inr,
}
use theta_directory.Groups.{Target, access, group_kind, site_everyone_cns}
use theta_directory.Permission.{require_resource}
use theta_directory.Permission.Meta.{is_lattice, require_resource_iff}

abbrev wiki : Target
wiki = record { site = codes "hq"; kind = codes "service"; slug = codes "app_wiki" }

abbrev for_everyone : List Text
for_everyone = codes "hq_everyone" ∷ []

require_resource_iff_example :
    (require_resource [] false wiki access (some for_everyone) ≡ none) ↔ (
      (is_lattice [] wiki access
        || (access == access
            && not false
            && (includes for_everyone (codes "everyone")
                || includes for_everyone (site_everyone_cns wiki.site))))
      ≡ true)
unfolding group_kind ◌==◌
require_resource_iff_example = require_resource_iff [] false wiki access for_everyone (inr refl)
