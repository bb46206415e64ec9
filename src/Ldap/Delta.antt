-- ===== src/Ldap/Delta.antt =====
-- The delta of nodejs/utils/ldap_runtime_config.js.
pub mod Sync
pub mod Converge
use theta_directory.Base.{
  ℕ, ◌+◌, Bool, true, false, not, ◌&&◌, ◌||◌, List, [], ◌∷◌, ◌++◌, any, Option, none, some, eqb,
  leb, if◌then◌else◌, Text, decimal, ◌==◌, is_empty,
}
use theta_directory.Ldap.{Peer, Desired}

-- A `Map` of the providers by their rid.
abbrev pub Providers : Type 0
Providers = List (ℕ × Text)

-- `readCurrent`, with its syncrepl values as `providersByRid` reads them.
pub record Live : Type 0 where
  pub server_ids : List Text
  pub providers : Providers
  pub mirror_mode : Bool

unfoldable pub provider_of : Providers → ℕ → Option Text
provider_of [] rid = none
provider_of ((r, p) ∷ m) rid = if eqb r rid then some p else provider_of m rid

unfoldable pub put_provider : Providers → ℕ → Text → Providers
put_provider [] rid p = (rid, p) ∷ []
put_provider ((r, q) ∷ m) rid p = if eqb r rid then (r, p) ∷ m else (r, q) ∷ put_provider m rid p

abbrev pub rid_for : ℕ → ℕ
rid_for id = 100 + id

-- The loop that fills `want`.
unfoldable pub want_from : Providers → List Peer → Providers
want_from want [] = want
want_from want (p ∷ ps) =
    want_from
      (if eqb p.server_id 0 || is_empty p.ldap_host
        then want
        else put_provider want (rid_for p.server_id) p.ldap_host)
      ps

abbrev pub wanted : List Peer → Providers
wanted peers = want_from [] peers

unfoldable pub is_provider : Option Text → Text → Bool
is_provider none p = false
is_provider (some q) p = q == p

unfoldable pub is_listed : Option Text → Bool
is_listed none = false
is_listed (some q) = true

-- `syncreplChanged`
unfoldable pub syncrepl_changed : Providers → Providers → Bool
syncrepl_changed current want =
    any (λ w. not (is_provider (provider_of current w.0) w.1)) want
    || any (λ h. not (is_listed (provider_of want h.0))) current

-- `replace` of an attribute with these values.
pub data Modification : Type 0 where
  set_server_id : Text → Modification
  set_syncrepl : Providers → Modification
  set_mirror_mode : Bool → Modification

unfoldable pub insert_rid : ℕ × Text → Providers → Providers
insert_rid w [] = w ∷ []
insert_rid w (v ∷ vs) = if leb w.0 v.0 then w ∷ v ∷ vs else v ∷ insert_rid w vs

-- `.sort((a, b) => a[0] - b[0])`
unfoldable pub sort_rids : Providers → Providers
sort_rids [] = []
sort_rids (w ∷ ws) = insert_rid w (sort_rids ws)

unfoldable pub has_id : List Text → Text → Bool
has_id [] id = false
has_id (s ∷ []) id = s == id
has_id (s ∷ t ∷ ts) id = false

abbrev pub has_peer : Providers → Bool
has_peer [] = false
has_peer (w ∷ ws) = true

abbrev pub same_flag : Bool → Bool → Bool
same_flag true b = b
same_flag false b = not b

unfoldable pub server_id_mods : List Text → ℕ → List Modification
server_id_mods ids id =
    if eqb id 0 || has_id ids (decimal id) then [] else set_server_id (decimal id) ∷ []

unfoldable pub syncrepl_mods : Providers → Providers → List Modification
syncrepl_mods current want =
    if syncrepl_changed current want then set_syncrepl (sort_rids want) ∷ [] else []

unfoldable pub mirror_mods : Bool → Bool → List Modification
mirror_mods current want = if same_flag want current then [] else set_mirror_mode want ∷ []

-- `orderedDbMods`: the mirror mode goes on behind the peers, and off before them.
unfoldable pub database_mods : Live → Providers → List Modification
database_mods live want =
    let peers = syncrepl_mods live.providers want in
    let mirror = mirror_mods live.mirror_mode (has_peer want) in
    if has_peer want then peers ++ mirror else mirror ++ peers

-- `modifications`
unfoldable pub plan : Live → Desired → List Modification
plan live desired =
    server_id_mods live.server_ids desired.server_id ++ database_mods live (wanted desired.peers)

pub data Outcome : Type 0 where
  not_configured : Outcome
  unreadable : Outcome
  in_sync : Outcome
  refused : List Modification → Outcome
  applied_live : List Modification → Outcome

-- `applyReplicationConfig`; whether it has a DN and a credential to bind with, what `readCurrent`
-- returns or none where it throws, and whether `ldapmodify` succeeds, are arguments.
unfoldable pub apply_replication_config :
    Bool → Option Live → (List Modification → Bool) → Desired → Outcome
apply_replication_config configured current modify desired = elim configured [
  | false ↦ not_configured
  | true ↦ elim current [
    | none ↦ unreadable
    | some live ↦ elim (plan live desired) [
      | [] ↦ in_sync
      | m ∷ ms ↦ if modify (m ∷ ms) then applied_live (m ∷ ms) else refused (m ∷ ms)
    ]
  ]
]
