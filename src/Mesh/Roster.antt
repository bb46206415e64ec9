-- ===== src/Mesh/Roster.antt =====
-- nodejs/utils/mesh_roster.js: the sites of the cluster.
pub mod Hub
pub mod Adopt
mod Tests
use theta_directory.Base.{
  ℕ, zero, Bool, true, false, not, ◌&&◌, ◌||◌, List, [], ◌∷◌, ◌++◌, map, Option, none, some, get_or,
  is_some, any, find, if◌then◌else◌, ltb, leb, eqb, Text, codes, is_empty, or_text, Result, ok, err,
  ◌>>=◌,
}

-- A row of nodejs/models/mesh_site.js.
pub record MeshSite : Type 0 where
  pub site_id : ℕ
  pub slug : Text
  pub name : Text
  pub gateway_public_key : Text
  pub gateway_endpoint : Text
  pub gateway_exit_public_key : Text
  pub is_hub : Bool
  pub exit_open : Bool
  pub country : Text
  pub city : Text
  pub lan168 : Text
  pub lan172 : Text
  pub dns_host : Text
  pub published_at : ℕ
  pub last_seen_at : ℕ

unfoldable pub by_site_id : List MeshSite → ℕ → Option MeshSite
by_site_id sites id = find (λ m. eqb m.site_id id) sites

-- What the local configuration holds; a server id of 0 or none at all counts as missing.
pub record SiteConfig : Type 0 where
  pub is_master : Bool
  pub ldap_server_id : ℕ
  pub site_slug : Text

-- The second argument is the id in slapd's seed, 0 if there is none.
unfoldable pub local_site_id : SiteConfig → ℕ → Option ℕ
local_site_id cfg from_slapd =
    if not (eqb cfg.ldap_server_id 0)
    then some cfg.ldap_server_id
    else if not (eqb from_slapd 0)
    then some from_slapd
    else if cfg.is_master
    then some 1
    else none

-- The roster row without what a non-administrator may not see.
pub record PublicSite : Type 0 where
  pub site_id : ℕ
  pub slug : Text
  pub name : Text
  pub is_hub : Bool
  pub exit_open : Bool
  pub country : Text
  pub city : Text
  pub lan168 : Text
  pub lan172 : Text
  pub dns_host : Text
  pub published_at : ℕ
  pub last_seen_at : ℕ
  pub gateway_published : Bool

unfoldable pub to_public_safe : MeshSite → PublicSite
to_public_safe m = record {
  site_id = m.site_id;
  slug = m.slug;
  name = m.name;
  is_hub = m.is_hub;
  exit_open = m.exit_open;
  country = m.country;
  city = m.city;
  lan168 = m.lan168;
  lan172 = m.lan172;
  dns_host = m.dns_host;
  published_at = m.published_at;
  last_seen_at = m.last_seen_at;
  gateway_published = not (is_empty m.gateway_public_key);
}

-- What a gateway publishes; `none` is undefined.
pub record Patch : Type 0 where
  pub slug : Text
  pub name : Option Text
  pub gateway_public_key : Option Text
  pub gateway_endpoint : Option Text
  pub gateway_exit_public_key : Option Text
  pub exit_open : Option Bool
  pub country : Option Text
  pub city : Option Text
  pub lan168 : Option Text
  pub lan172 : Option Text
  pub dns_host : Option Text
  pub dns_host_detected : Text

-- `fields.dnsHost`, with the detected one taken only while nobody has named another.
unfoldable pub published_dns : Patch → Text → Option Text
published_dns patch existing =
    if not (is_empty patch.dns_host_detected) && not (is_some patch.dns_host) && is_empty existing
    then some patch.dns_host_detected
    else patch.dns_host

-- `existing.update(fields)`, and the fields of a new row over its defaults.
unfoldable pub apply_patch : SiteConfig → Patch → ℕ → Text → MeshSite → MeshSite
apply_patch cfg patch now name m = record m {
  slug = or_text patch.slug (or_text m.slug cfg.site_slug);
  name = get_or patch.name name;
  gateway_public_key = get_or patch.gateway_public_key m.gateway_public_key;
  gateway_endpoint = get_or patch.gateway_endpoint m.gateway_endpoint;
  gateway_exit_public_key = get_or patch.gateway_exit_public_key m.gateway_exit_public_key;
  exit_open = get_or patch.exit_open m.exit_open;
  country = get_or patch.country m.country;
  city = get_or patch.city m.city;
  lan168 = get_or patch.lan168 m.lan168;
  lan172 = get_or patch.lan172 m.lan172;
  dns_host = get_or (published_dns patch m.dns_host) m.dns_host;
  published_at = now;
  last_seen_at = now;
}

abbrev pub any_hub : List MeshSite → Bool
any_hub = any (λ m. m.is_hub)

-- A row with nothing published; an exit is open by default.
abbrev pub blank : ℕ → MeshSite
blank id = record {
  site_id = id;
  slug = [];
  name = [];
  gateway_public_key = [];
  gateway_endpoint = [];
  gateway_exit_public_key = [];
  is_hub = false;
  exit_open = true;
  country = [];
  city = [];
  lan168 = codes "192.168.1.0/24";
  lan172 = codes "172.16.0.0/24";
  dns_host = [];
  published_at = 0;
  last_seen_at = 0;
}

pub data Refusal : Type 0 where
  no_site_id : Refusal
  beyond_ceiling not_found : ℕ → Refusal

-- The first row with the id is changed.
unfoldable pub update_site : List MeshSite → ℕ → (MeshSite → MeshSite) → List MeshSite
update_site [] id f = []
update_site (m ∷ ms) id f = if eqb m.site_id id then f m ∷ ms else m ∷ update_site ms id f

-- The row that is published, before it is sent to the master.
unfoldable pub publish_local_site :
    List MeshSite → SiteConfig → ℕ → Patch → ℕ → Result Refusal (List MeshSite)
publish_local_site sites cfg from_slapd patch now = elim (local_site_id cfg from_slapd) [
  | none ↦ err no_site_id
  | some id ↦ if ltb 254 id then err (beyond_ceiling id) else elim (by_site_id sites id) [
    | some existing ↦ ok (update_site sites id (λ m. apply_patch cfg patch now m.name m))
    | none ↦ ok (
        sites
        ++ apply_patch cfg patch now cfg.site_slug
            (record (blank id) { is_hub = eqb id 1 && not (any_hub sites) })
          ∷ [])
  ]
]

-- One row of a master's export; the site's own row is skipped.
unfoldable pub adopt_row : Option ℕ → List MeshSite → MeshSite → List MeshSite
adopt_row own sites row =
    if eqb row.site_id 0
      || ltb 254 row.site_id
      || (elim own [ none ↦ false | some id ↦ eqb row.site_id id ])
    then sites
    else if is_some (by_site_id sites row.site_id)
    then update_site sites row.site_id (λ m. row)
    else sites ++ row ∷ []

unfoldable pub adopt_roster : Option ℕ → List MeshSite → List MeshSite → List MeshSite
adopt_roster own sites [] = sites
adopt_roster own sites (row ∷ rows) = adopt_roster own (adopt_row own sites row) rows

-- A registered spoke: its server id (0 if it has none) and its slug.
unfoldable pub sync_from_spokes : Bool → List MeshSite → List (ℕ × Text) → List MeshSite
sync_from_spokes is_master sites [] = sites
sync_from_spokes is_master sites ((id, slug) ∷ spokes) =
    sync_from_spokes is_master
      (if not is_master || eqb id 0 || ltb 254 id || is_some (by_site_id sites id)
        then sites
        else sites ++ record (blank id) { slug = slug; name = slug } ∷ [])
      spokes

-- The loop that clears the flag of every other site.
unfoldable pub clear_hubs : ℕ → List MeshSite → List MeshSite
clear_hubs id [] = []
clear_hubs id (m ∷ ms) =
    (if m.is_hub && not (eqb m.site_id id) then record m { is_hub = false } else m)
    ∷ clear_hubs id ms

unfoldable pub set_hub : List MeshSite → ℕ → Result Refusal (List MeshSite)
set_hub sites id =
    if is_some (by_site_id sites id)
    then ok (update_site (clear_hubs id sites) id (λ m. record m { is_hub = true }))
    else err (not_found id)
