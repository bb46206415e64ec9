-- ===== src/Catalog/Matcher.antt =====
-- nodejs/services/resource_matcher.js: which resource an incoming description belongs to.
pub mod Strong
mod Tests
use theta_directory.Base.{
  ℕ, Bool, true, false, not, ◌&&◌, ◌||◌, List, [], ◌∷◌, ◌++◌, map, filter, Option, none, some, any,
  find, length, eqb, ltb, leb, if◌then◌else◌, Text, ◌==◌, includes, is_empty, or_text, to_lower,
  trim, split, head?, get_or,
}
use theta_directory.Catalog.{Interface, Metadata, Resource}

-- `[a-f0-9]`.
unfoldable pub is_hex : ℕ → Bool
is_hex c = leb 97 c && leb c 102 || leb 48 c && leb c 57

unfoldable pub normalize_mac : Text → Text
normalize_mac value = filter is_hex (to_lower value)

unfoldable pub normalize_identity_host : Text → Text
normalize_identity_host value = trim (get_or (head? (split 46 (to_lower value))) [])

-- `[...new Set(xs)]`.
unfoldable pub unique_from : List Text → List Text → List Text
unique_from seen [] = []
unique_from seen (x ∷ xs) =
    if includes seen x then unique_from seen xs else x ∷ unique_from (x ∷ seen) xs

unfoldable pub is_mac : Text → Bool
is_mac mac = eqb (length mac) 12

unfoldable pub macs_of : Metadata → List Text
macs_of md =
    let own = if is_empty md.mac_address then [] else normalize_mac md.mac_address ∷ [] in
    let others = filter is_mac (map (λ i. normalize_mac i.mac) md.interfaces) in
    unique_from [] (filter is_mac (own ++ others))

unfoldable pub addresses : Text → List Text
addresses address = map trim (split 44 address)

unfoldable pub is_present : Text → Bool
is_present t = not (is_empty t)

unfoldable pub ips_of : Metadata → List Text
ips_of md =
    let interfaces = filter is_present (map (λ i. i.ip) md.interfaces) in
    let own = if is_empty md.ip then [] else md.ip ∷ [] in
    let listed = if is_empty md.address then [] else filter is_present (addresses md.address) in
    unique_from [] (filter is_present (interfaces ++ (own ++ listed)))

unfoldable pub has_strong_identity : Resource → Bool
has_strong_identity r =
    is_present r.metadata.mac_address || any (λ i. is_present i.mac) r.metadata.interfaces

unfoldable pub shares_mac : List Text → Resource → Bool
shares_mac macs r =
    is_present r.metadata.mac_address && includes macs (normalize_mac r.metadata.mac_address)
    || any (λ i. includes macs (normalize_mac i.mac)) r.metadata.interfaces

unfoldable pub match_by_mac : List Text → List Resource → Option Resource
match_by_mac [] pool = none
match_by_mac (mac ∷ macs) pool = find (shares_mac (mac ∷ macs)) pool

-- `{ siteOf, incomingSiteId }`; an empty text stands for no site.
pub record Scope : Type 0 where
  pub site_of : Option (Text → Option Text)
  pub incoming_site_id : Text

unfoldable pub is_site : Text → Option Text → Bool
is_site id none = false
is_site id (some site) = site == id

unfoldable pub in_scope : Scope → Resource → Bool
in_scope scope r = elim scope.site_of [
  | none ↦ true
  | some site_of ↦ is_empty scope.incoming_site_id || is_site scope.incoming_site_id (site_of r.id)
]

unfoldable pub shares_ip : List Text → Resource → Bool
shares_ip ips r =
    is_present r.metadata.ip && includes ips r.metadata.ip
    || is_present r.metadata.address && any (includes ips) (addresses r.metadata.address)
    || any (λ i. includes ips i.ip) r.metadata.interfaces

unfoldable pub is_ip_candidate : Scope → List Text → Resource → Bool
is_ip_candidate scope ips r = not (has_strong_identity r) && in_scope scope r && shares_ip ips r

unfoldable pub match_by_ip : List Text → List Resource → Scope → Option Resource
match_by_ip [] pool scope = none
match_by_ip (ip ∷ ips) pool scope = find (is_ip_candidate scope (ip ∷ ips)) pool

unfoldable pub shares_name : Text → Text → Resource → Bool
shares_name name slug r =
    let input_name = normalize_identity_host (or_text name slug) in
    is_present slug && r.slug == slug
    || is_present name && is_present r.name && to_lower r.name == to_lower name
    || is_present input_name && is_present r.name && normalize_identity_host r.name == input_name
    || is_present input_name && is_present r.slug && normalize_identity_host r.slug == input_name

unfoldable pub is_name_candidate : Scope → Text → Text → Resource → Bool
is_name_candidate scope name slug r =
    not (has_strong_identity r) && in_scope scope r && shares_name name slug r

unfoldable pub match_by_name_or_slug : Text → Text → List Resource → Scope → Option Resource
match_by_name_or_slug name slug pool scope =
    if is_empty name && is_empty slug then none else find (is_name_candidate scope name slug) pool

-- The last tier, for a description with neither a MAC nor an address.
unfoldable pub match_by_guess : Resource → List Resource → Scope → Option Resource
match_by_guess incoming pool scope =
    if ltb 0 (length (macs_of incoming.metadata)) || ltb 0 (length (ips_of incoming.metadata))
    then none
    else match_by_name_or_slug incoming.name incoming.slug pool scope

-- `first || second`.
unfoldable pub or_else : Option Resource → Option Resource → Option Resource
or_else (some r) next = some r
or_else none next = next

unfoldable pub find_existing_match : Resource → List Resource → Scope → Option Resource
find_existing_match incoming pool scope =
    let by_id = if is_empty incoming.id then none else find (λ r. r.id == incoming.id) pool in
    let by_mac = match_by_mac (macs_of incoming.metadata) pool in
    let by_ip = match_by_ip (ips_of incoming.metadata) pool scope in
    or_else by_id (or_else by_mac (or_else by_ip (match_by_guess incoming pool scope)))
