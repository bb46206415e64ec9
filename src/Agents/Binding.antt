-- ===== src/Agents/Binding.antt =====
-- nodejs/utils/agent_binding.js: the service that ties an agent to the host it runs on.
pub mod Ensure
mod Tests
use theta_directory.Base.{
  ℕ, zero, suc, Bool, true, false, not, ◌&&◌, ◌||◌, List, [], ◌∷◌, ◌++◌, map, filter, find, length,
  any, Option, none, some, eqb, leb, if◌then◌else◌, Text, codes, ◌==◌, includes, is_empty, or_text,
  to_lower, trim, strip_prefix, split_last, ends_with, every, is_digit,
}
use theta_directory.Groups.{slugify, is_alnum, dash, underscore}
use theta_directory.Inheritance.{Edge}
use theta_directory.Catalog.{Resource, plain_metadata, service_kind, host_kind}
use theta_directory.Catalog.Rollup.{find_resource}

-- The tables of resources and of the edges between them.
pub record Estate : Type 0 where
  pub resources : List Resource
  pub edges : List Edge

-- `AGENT_SERVICE_SUBTYPE`
abbrev pub agent_subtype : Text
agent_subtype = codes "theta-agent"

unfoldable pub is_agent_service : Resource → Bool
is_agent_service r = r.kind == service_kind && r.metadata.sub_type == agent_subtype

-- `slug.replace(/^host-/, '')`
unfoldable pub bare_host : Text → Text
bare_host slug = elim (strip_prefix (codes "host-") slug) [ some rest ↦ rest | none ↦ slug ]

unfoldable pub agent_service_slug : Text → Text
agent_service_slug slug =
    codes "svc-" ++ (bare_host (or_text slug (codes "host")) ++ dash ∷ agent_subtype)

-- The first of the rows with these ids that passes the test.
unfoldable pub first_row : (Resource → Bool) → List Resource → List Text → Option Resource
first_row test all [] = none
first_row test all (id ∷ ids) =
    let rest = first_row test all ids in
    elim (find_resource all id) [ none ↦ rest | some r ↦ if test r then some r else rest ]

unfoldable pub child_ids : List Edge → Text → List Text
child_ids edges id = map (λ e. e.child_id) (filter (λ e. e.parent_id == id) edges)

unfoldable pub parent_ids : List Edge → Text → List Text
parent_ids edges id = map (λ e. e.parent_id) (filter (λ e. e.child_id == id) edges)

unfoldable pub find_agent_service : Estate → Resource → Option Resource
find_agent_service e h = first_row is_agent_service e.resources (child_ids e.edges h.id)

-- The row that is created under a host.
unfoldable pub new_service : Text → Resource → Resource
new_service id h = record {
  id = id;
  kind = service_kind;
  name = codes "Theta Agent";
  slug = agent_service_slug h.slug;
  metadata = record plain_metadata { sub_type = agent_subtype; managed = true };
}

-- The calls of the database whose errors are not swallowed.
pub data Call : Type 0 where
  find_agent find_key list_agents : Call
  create_host link_host create_service link_service : Call
  create_agent update_agent_row update_key_row : Call

-- `slug` is unique: a row with a slug that another row has is not created.
unfoldable pub has_slug : List Resource → Text → Bool
has_slug all slug = any (λ r. r.slug == slug) all

unfoldable pub add_row : Resource → Estate → Estate
add_row r e = record e { resources = e.resources ++ r ∷ [] }

unfoldable pub add_edge : Text → Text → Estate → Estate
add_edge parent child e = record e {
  edges = e.edges ++ record { parent_id = parent; child_id = child } ∷ [];
}

-- A row and then its edge; none where one of the two fails, which does not undo the other.
unfoldable pub create_below :
    (Call → Bool) → Call → Call → Text → Resource → Estate → Option Resource × Estate
create_below fails create link parent r e =
    if fails create || has_slug e.resources r.slug
    then (none, e)
    else if fails link
    then (none, add_row r e)
    else (some r, add_edge parent r.id (add_row r e))

-- `fresh` is the new id; none where the function throws.
unfoldable pub ensure_agent_service :
    (Call → Bool) → Text → Estate → Resource → Option Resource × Estate
ensure_agent_service fails fresh e h = elim (find_agent_service e h) [
  | some existing ↦ (some existing, e)
  | none ↦ create_below fails create_service link_service h.id (new_service fresh h) e
]

-- `hostForAgent`, for the id that an agent is bound to.
unfoldable pub host_for_agent : Estate → Text → Option Resource
host_for_agent e resource_id = elim (is_empty resource_id) [
  | true ↦ none
  | false ↦ elim (find_resource e.resources resource_id) [
    | none ↦ none
    | some service ↦
        if is_agent_service service
        then first_row (λ r. r.kind == host_kind) e.resources (parent_ids e.edges service.id)
        else none
  ]
]

unfoldable pub is_hex : ℕ → Bool
is_hex c = is_digit c || (leb b'a' c && leb c b'f')

-- `.replace(/^(…)/, '')`, the first alternative that fits.
unfoldable pub strip_any : List Text → Text → Text
strip_any [] t = t
strip_any (p ∷ ps) t = elim (strip_prefix p t) [ some rest ↦ rest | none ↦ strip_any ps t ]

-- `.replace(/:\d+$/, '')`
unfoldable pub strip_port : Text → Text
strip_port t = elim (split_last (codes ":") t) [
  | none ↦ t
  | some (before, from) ↦ elim from [
    | [] ↦ t
    | colon ∷ digits ↦ if not (is_empty digits) && every is_digit digits then before else t
  ]
]

-- `.replace(/-[a-f0-9]{n}$/, '')`
unfoldable pub strip_hex : ℕ → Text → Text
strip_hex n t = elim (split_last (codes "-") t) [
  | none ↦ t
  | some (before, from) ↦ elim from [
    | [] ↦ t
    | mark ∷ tail ↦ if eqb (length tail) n && every is_hex tail then before else t
  ]
]

-- `.replace(/[._-](local|lan|internal|home)$/, '')`, behind the step that drops every dot.
unfoldable pub strip_domain : List Text → Text → Text
strip_domain [] t = t
strip_domain (word ∷ words) t =
    let rest = strip_domain words t in
    elim (split_last word t) [
      | none ↦ rest
      | some (before, from) ↦ if from == word then before else rest
    ]

abbrev pub local_words : List Text
local_words =
    codes "_local"
    ∷ codes "-local"
    ∷ codes "_lan"
    ∷ codes "-lan"
    ∷ codes "_internal"
    ∷ codes "-internal"
    ∷ codes "_home"
    ∷ codes "-home"
    ∷ []

abbrev pub host_prefixes : List Text
host_prefixes =
    codes "lxc-"
    ∷ codes "vm-"
    ∷ codes "host-"
    ∷ codes "host_"
    ∷ codes "pve-node-"
    ∷ codes "pve-"
    ∷ []

unfoldable pub normalize_host : Text → Text
normalize_host name =
    let bare =
      strip_any host_prefixes
        (strip_port (strip_any (codes "http://" ∷ codes "https://" ∷ []) (to_lower name))) in
    strip_domain local_words
      (filter (λ c. is_alnum c || eqb c underscore || eqb c dash) (strip_hex 8 (strip_hex 12 bare)))

-- The runs of other characters are single dashes already, so that one at an end is all there is.
unfoldable pub host_slug_candidates : Text → List Text
host_slug_candidates name =
    let base = slugify (trim (to_lower name)) in
    if is_empty base then [] else (codes "host_" ++ base) ∷ (codes "host-" ++ base) ∷ base ∷ []

-- The breadth-first search of `findHostAtSite`; `exact` ends it.
pub record HostSearch : Type 0 where
  pub queue : List Text
  pub visited : List Text
  pub exact : Option Resource
  pub normalized : Option Resource

unfoldable pub is_exact : Text → Resource → Bool
is_exact name r =
    trim (to_lower r.name) == trim (to_lower name)
    || includes (host_slug_candidates name) (to_lower r.slug)

unfoldable pub is_normalized : Text → Resource → Bool
is_normalized name r =
    not (is_empty (normalize_host name))
    && (normalize_host r.name == normalize_host name
        || normalize_host r.slug == normalize_host name)

-- The body of the loop over the edges, while nothing exact was found.
unfoldable pub look_at_child : Text → List Resource → HostSearch → Text → HostSearch
look_at_child name all s id = elim s.exact [
  | some found ↦ s
  | none ↦ elim (includes s.visited id) [
    | true ↦ s
    | false ↦
        let seen : HostSearch = record s { visited = id ∷ s.visited } in
        elim (find_resource all id) [
          | none ↦ seen
          | some child ↦
              if not (child.kind == host_kind)
              then seen
              else if is_exact name child
              then record seen { exact = some child }
              else record seen {
                queue = s.queue ++ child.id ∷ [];
                normalized = elim s.normalized [
                  | some earlier ↦ some earlier
                  | none ↦ if is_normalized name child then some child else none
                ];
              }
        ]
  ]
]

unfoldable pub look_at_children : Text → List Resource → HostSearch → List Text → HostSearch
look_at_children name all s [] = s
look_at_children name all s (id ∷ ids) = look_at_children name all (look_at_child name all s id) ids

-- Every row is queued at most once behind the site.
unfoldable pub search_hosts : ℕ → Text → Estate → HostSearch → Option Resource
search_hosts zero name e s = elim s.exact [ some found ↦ some found | none ↦ s.normalized ]
search_hosts (suc fuel) name e s = elim s.exact [
  | some found ↦ some found
  | none ↦ elim s.queue [
    | [] ↦ s.normalized
    | id ∷ rest ↦
        search_hosts fuel name e
          (look_at_children name e.resources (record s { queue = rest }) (child_ids e.edges id))
  ]
]

unfoldable pub find_host_at_site : Estate → Text → Text → Option Resource
find_host_at_site e site_id name = elim (is_empty site_id || is_empty name) [
  | true ↦ none
  | false ↦
      search_hosts (suc (suc (length e.resources))) name e
        (record { queue = site_id ∷ []; visited = site_id ∷ []; exact = none; normalized = none })
]
