-- ===== src/Promotion.antt =====
-- The spokes that a promoted site takes over: nodejs/utils/site_promote.js, with the free server
-- ids of nodejs/utils/ldap_replication.js.
pub mod Ids
mod Tests
use theta_directory.Base.{
  ℕ, zero, suc, ◌+◌, Bool, true, false, not, ◌&&◌, ◌||◌, List, [], ◌∷◌, ◌++◌, map, filter, length,
  any, find, eqb, Option, none, some, get_or, if◌then◌else◌, Text, ◌==◌, is_empty, or_text,
  first_from,
}
use theta_directory.WriteProxy.{trim_slash}

-- A row of nodejs/models/site_spoke.js, the columns that are written below; a server id of 0 stands
-- for none.
pub record Spoke : Type 0 where
  pub id : Text
  pub endpoint : Text
  pub site_slug : Text
  pub push_token : Text
  pub no_inbound : Bool
  pub mesh_ip : Text
  pub public_host : Text
  pub server_id : ℕ
  pub last_seen_on : ℕ

abbrev pub max_server_id : ℕ
max_server_id = 4094

abbrev pub has_id : List ℕ → ℕ → Bool
has_id ids n = any (λ m. eqb m n) ids

abbrev pub server_ids : List Spoke → List ℕ
server_ids spokes = map (λ s. s.server_id) spokes

-- `i` runs from 2 to the greatest id.
unfoldable pub next_free_server_id : List Spoke → Option ℕ
next_free_server_id spokes = first_from (λ i. not (has_id (server_ids spokes) i)) 4093 2

-- `while (used.has(id)) id += 1`
unfoldable pub step_past : ℕ → List ℕ → ℕ → ℕ
step_past zero used id = id
step_past (suc fuel) used id =
    let later = step_past fuel used (suc id) in if has_id used id then later else id

-- A step past each id in use is enough; 0 is no id.
unfoldable pub past_used : List ℕ → Option ℕ → ℕ
past_used used none = 0
past_used used (some id) = step_past (length used) used id

unfoldable pub choose_server_id : List ℕ → List Spoke → ℕ → ℕ
choose_server_id used spokes inherited =
    if not (eqb inherited 0) && not (has_id used inherited)
    then inherited
    else past_used used (next_free_server_id spokes)

unfoldable pub update_first : List Spoke → Text → (Spoke → Spoke) → List Spoke
update_first [] id f = []
update_first (s ∷ ss) id f = if s.id == id then f s ∷ ss else s ∷ update_first ss id f

-- What the call takes from outside: the new ids and tokens by endpoint, and the time.
pub record Fresh : Type 0 where
  pub new_id : Text → Text
  pub new_token : Text → Text
  pub now : ℕ

-- `patch` over a row.
unfoldable pub patched : Fresh → Spoke → Text → ℕ → Spoke → Spoke
patched fresh inherited endpoint server_id s = record s {
  site_slug = inherited.site_slug;
  push_token = or_text inherited.push_token (fresh.new_token endpoint);
  no_inbound = inherited.no_inbound;
  mesh_ip = inherited.mesh_ip;
  public_host = inherited.public_host;
  server_id = server_id;
  last_seen_on = fresh.now;
}

pub record Adoption : Type 0 where
  pub spokes : List Spoke
  pub used : List ℕ
  pub adopted : ℕ

-- One round, with the endpoint trimmed; `local` is the table as the call found it.
unfoldable pub adopt_at : Fresh → List Spoke → Adoption → Spoke → Text → Adoption
adopt_at fresh local a inherited endpoint =
    let server_id = choose_server_id a.used a.spokes inherited.server_id in
    let blank : Spoke = record inherited { id = fresh.new_id endpoint; endpoint = endpoint } in
    record {
      spokes = elim (find (λ s. trim_slash s.endpoint == endpoint) local) [
        | some row ↦ update_first a.spokes row.id (patched fresh inherited endpoint server_id)
        | none ↦ a.spokes ++ patched fresh inherited endpoint server_id blank ∷ []
      ];
      used = server_id ∷ a.used;
      adopted = suc a.adopted;
    }

unfoldable pub adopt_spoke : Fresh → Text → List Spoke → Adoption → Spoke → Adoption
adopt_spoke fresh self local a inherited =
    let endpoint = trim_slash inherited.endpoint in
    if is_empty endpoint || not (is_empty self) && endpoint == self
    then a
    else adopt_at fresh local a inherited endpoint

unfoldable pub adopt_all : Fresh → Text → List Spoke → Adoption → List Spoke → Adoption
adopt_all fresh self local a [] = a
adopt_all fresh self local a (s ∷ ss) =
    adopt_all fresh self local (adopt_spoke fresh self local a s) ss

-- 1 is the master's own id.
unfoldable pub adopt_rows : Fresh → Text → List Spoke → List Spoke → Adoption
adopt_rows fresh self_url local inherited =
    adopt_all fresh (trim_slash self_url) local
      (record { spokes = local; used = 1 ∷ server_ids local; adopted = 0 }) inherited
