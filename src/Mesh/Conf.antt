-- ===== src/Mesh/Conf.antt =====
-- nodejs/utils/mesh_client_conf.js: the configuration that a client device runs.
use theta_directory.Base.{
  ℕ, Bool, true, false, ◌||◌, List, [], ◌∷◌, ◌++◌, Option, none, some, if◌then◌else◌, eqb, Text,
  codes, decimal, is_empty, Result, ok, ◌>>=◌,
}
use theta_directory.Mesh.Addressing.{Fault, shadow_for, site_cidr}
use theta_directory.Mesh.Roster.{MeshSite}

abbrev pub client_mtu : ℕ
client_mtu = 1380

abbrev pub newline : ℕ
newline = 10

module _ (number : Text → Option ℕ) where
  -- The loop of `resolverFor` over the shadow slots.
  unfoldable pub resolver_slots : MeshSite → List ℕ → Result Fault (Option Text)
  resolver_slots site [] = ok none
  resolver_slots site (slot ∷ slots) = do
    shadow ←
        shadow_for number site.site_id site.dns_host
          (if eqb slot 168 then site.lan168 else site.lan172) slot
    let rest = resolver_slots site slots
    elim shadow [ some address ↦ ok (some address) | none ↦ rest ]

  unfoldable pub resolver_for : MeshSite → Result Fault (Option Text)
  resolver_for site =
      if is_empty site.dns_host then ok none else resolver_slots site (168 ∷ 172 ∷ [])

unfoldable pub allowed_ips_for : Bool → Bool → List Text
allowed_ips_for has_exit agent_managed =
    if has_exit || agent_managed
    then codes "0.0.0.0/0" ∷ codes "::/0" ∷ []
    else codes "10.0.0.0/8" ∷ codes "172.24.0.0/16" ∷ []

pub record Route : Type 0 where
  pub destination : Text
  pub via : Option Text
  pub dev : Bool

unfoldable pub client_routes : MeshSite → Result Fault (List Route)
client_routes site = do
  own ← site_cidr site.site_id
  let gateway = codes "10." ++ decimal site.site_id ++ codes ".0.1"
  ok (
      record { destination = own; via = none; dev = true }
      ∷ record { destination = codes "10.0.0.0/8"; via = some gateway; dev = false }
      ∷ record { destination = codes "172.24.0.0/16"; via = some gateway; dev = false }
      ∷ [])
