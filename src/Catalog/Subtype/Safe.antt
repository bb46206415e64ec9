-- ===== src/Catalog/Subtype/Safe.antt =====
-- What an operator's template cannot change in nodejs/services/subtype_templates.js.
use theta_directory.Base.{
  true, false, not, ◌≡◌, ◌⊎◌, inl, inr, arith, Text, ◌==◌, eq_iff, includes, to_lower, Bool-cases,
  List,
}
use theta_directory.Inheritance.{Edge}
use theta_directory.Catalog.{Resource, host_kind, service_kind}
use theta_directory.Catalog.Subtype.{
  Cache, never_ssh_subtypes, container_kind, template_for, is_jump_target,
}

-- Whatever the templates say, a switch, a printer or an out-of-band controller is no jump target.
pub never_ssh_safe :
    (cache : Cache) (r : Resource) (services : List Text) (edges : List Edge)
    → includes never_ssh_subtypes (to_lower r.metadata.sub_type) ≡ true
    → is_jump_target cache r services edges ≡ false
unfolding is_jump_target template_for
never_ssh_safe cache r services edges h = elim (Bool-cases (r.kind == host_kind)) [
  | inl host ↦ rw (host, h) (ground arith)
  | inr other ↦ rw other
]

-- A resource either has groups of its own or takes its host's, never both; only a service or a
-- container takes its host's.
pub own_groups-inherits_host :
    (cache : Cache) (r : Resource)
    → ((template_for cache r).own_groups ≡ not (template_for cache r).inherits_host)
      × (((template_for cache r).inherits_host ≡ false)
          ⊎ (r.kind ≡ service_kind)
          ⊎ (r.kind ≡ container_kind))
unfolding template_for
own_groups-inherits_host cache r =
    ground (arith, eq_iff r.kind service_kind, eq_iff r.kind container_kind)
