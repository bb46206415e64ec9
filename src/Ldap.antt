-- ===== src/Ldap.antt =====
-- nodejs/utils/ldap_reconcile.js, nodejs/utils/ldap_runtime_config.js and
-- nodejs/utils/ldap_replication.js: the replication of this site's LDAP server.
pub mod Loop
pub mod Current
pub mod Settled
pub mod Delta
pub mod Peers
pub mod Drift
mod Tests
use theta_directory.Base.{
  ℕ, zero, ◌+◌, Bool, true, false, not, ◌&&◌, ◌||◌, List, [], ◌∷◌, ◌++◌, map, filter, Option, none,
  some, is_some, eqb, if◌then◌else◌, Text, codes, decimal, ◌==◌, includes, is_empty, or_text,
  ends_with,
}
use theta_directory.Promotion.{Spoke}

-- A peer as the master names it; a missing id is 0 and a missing address empty.
pub record Peer : Type 0 where
  pub server_id : ℕ
  pub ldap_host : Text

-- What this site's configuration should be.
pub record Desired : Type 0 where
  pub server_id : ℕ
  pub peers : List Peer

-- nodejs/utils/site_config.js, with what the file says and whether it is there.
pub record Site : Type 0 where
  pub is_master : Bool
  pub master_url : Text
  pub master_join_key : Text
  pub push_token : Text
  pub self_url : Text
  pub server_id : Option ℕ
  pub has_file : Bool

unfoldable pub ldap_mesh_host : ℕ → Option Text
ldap_mesh_host id =
    if eqb id 0 then none else some (codes "ldap://10." ++ (decimal id ++ codes ".0.1:389"))

-- `url.replace(/\/+$/, '')`
unfoldable pub strip_slashes : Text → Text
strip_slashes [] = []
strip_slashes (c ∷ s) =
    let rest = strip_slashes s in if eqb c b'/' && is_empty rest then [] else c ∷ rest

-- `hostname_of` is `new URL(endpoint).hostname`, and none where it throws.
module _ (hostname_of : Text → Option Text) where
  unfoldable pub ldap_host_for : Text → Option Text
  ldap_host_for endpoint = elim (hostname_of endpoint) [
    | none ↦ none
    | some h ↦ some (codes "ldaps://" ++ (h ++ codes ":636"))
  ]

  unfoldable pub ldap_host_for_spoke : Spoke → Option Text
  ldap_host_for_spoke s = elim (ldap_mesh_host s.server_id) [
    | some mesh ↦ some mesh
    | none ↦ ldap_host_for s.endpoint
  ]

  -- The registered spokes that have an id and an address.
  unfoldable pub peers_of : List Spoke → List Peer
  peers_of [] = []
  peers_of (s ∷ ss) =
      let rest = peers_of ss in
      if eqb s.server_id 0 then rest else elim (ldap_host_for_spoke s) [
        | none ↦ rest
        | some host ↦
            if is_empty host
            then rest
            else record { server_id = s.server_id; ldap_host = host } ∷ rest
      ]

  -- `ask` is the GET of the url with the token: none unless a body came back.
  unfoldable pub desired_config :
      (Text → Text) → (Text → Text → Option Desired) → Site → List Spoke → Option Desired
  desired_config encode ask cfg spokes =
      if cfg.is_master
      then some (record { server_id = 1; peers = peers_of spokes })
      else if is_empty cfg.master_url
          || (is_empty cfg.master_join_key && is_empty cfg.push_token)
          || is_empty cfg.self_url
      then none
      else elim (ask
          (strip_slashes cfg.master_url
            ++ (codes "/api/site/ldap-peers?endpoint=" ++ encode cfg.self_url))
          (or_text cfg.push_token cfg.master_join_key)) [
            | none ↦ none
            | some body ↦ if eqb body.server_id 0 then none else some body
          ]

unfoldable pub may_persist : Site → Bool
may_persist cfg = not cfg.is_master || (cfg.has_file && is_some cfg.server_id)

unfoldable pub same_id : Option ℕ → ℕ → Bool
same_id none id = false
same_id (some own) id = eqb own id

-- The part of `onePass` that writes: `siteConfig.save` makes the file where there is none.
unfoldable pub persist : Desired → Site → Site
persist desired cfg =
    if may_persist cfg
      && not (eqb desired.server_id 0)
      && not (same_id cfg.server_id desired.server_id)
    then record cfg { server_id = some desired.server_id; has_file = true }
    else cfg
