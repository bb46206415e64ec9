-- ===== src/Agents/Site.antt =====
-- nodejs/utils/agent_site.js: the site that an agent's host is filed under.
pub mod Hint
mod Tests
use theta_directory.Base.{
  ℕ, Bool, true, false, not, ◌&&◌, ◌||◌, List, [], ◌∷◌, ◌++◌, map, filter, find, any, Option, none,
  some, eqb, if◌then◌else◌, Text, codes, ◌==◌, includes, is_empty, or_text, to_lower, trim,
  starts_with, strip_prefix,
}
use theta_directory.Groups.{dash, underscore}
use theta_directory.Catalog.{Resource, site_kind}

-- `.trim().toLowerCase().replace(/-/g, '_')`
unfoldable pub normalize_site_key : Text → Text
normalize_site_key v = map (λ c. if eqb c dash then underscore else c) (to_lower (trim v))

-- The hints that name no site.
unfoldable pub is_no_hint : Text → Bool
is_no_hint wanted =
    is_empty wanted
    || includes (codes "default" ∷ codes "unknown" ∷ codes "none" ∷ []) (to_lower wanted)

-- `.replace(/^site_/, '')`
unfoldable pub bare_key : Text → Text
bare_key key = elim (strip_prefix (codes "site_") key) [ some rest ↦ rest | none ↦ key ]

-- The test of `sites.find`.
unfoldable pub fits_hint : Text → Resource → Bool
fits_hint wanted s =
    let key = normalize_site_key wanted in
    s.id == wanted
    || normalize_site_key s.id == key
    || s.slug == wanted
    || normalize_site_key s.slug == key
    || normalize_site_key s.slug == (codes "site_" ++ bare_key key)
    || normalize_site_key s.name == key
    || normalize_site_key s.name == bare_key key
    || s.name == wanted

unfoldable pub sites_of : List Resource → List Resource
sites_of all = filter (λ r. r.kind == site_kind) all

unfoldable pub resolve_site_hint : List Resource → Text → Option Resource
resolve_site_hint all hint =
    let found = find (fits_hint (trim hint)) (sites_of all) in
    if is_no_hint (trim hint) then none else found

unfoldable pub current_site : List Resource → Option Resource
current_site all = find (λ s. s.metadata.is_current_site) (sites_of all)

-- `t.includes(part)` on texts.
unfoldable pub has_part : Text → Text → Bool
has_part [] part = is_empty part
has_part (c ∷ s) part = starts_with (c ∷ s) part || has_part s part

unfoldable pub at_address : Text → Resource → Bool
at_address public_ip s =
    let site_ip = trim (or_text s.metadata.public_ip (or_text s.metadata.ip s.metadata.address)) in
    not (is_empty site_ip) && (site_ip == public_ip || has_part site_ip public_ip)

-- `a || b` on what was found.
abbrev pub or_found : Option Resource → Option Resource → Option Resource
or_found none b = b
or_found (some a) b = some a

unfoldable pub resolve_agent_site : List Resource → Text → Text → Option Resource
resolve_agent_site all location public_ip =
    let by_hint =
      if is_no_hint (to_lower (trim location)) then none else resolve_site_hint all location in
    let by_ip = if is_empty public_ip then none else find (at_address public_ip) (sites_of all) in
    or_found by_hint (or_found by_ip (current_site all))
