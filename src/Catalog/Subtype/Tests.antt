-- ===== src/Catalog/Subtype/Tests.antt =====
-- A switch and an agent's service, for nodejs/services/subtype_templates.js.
use theta_directory.Base.{true, false, [], ◌∷◌, some, codes}
use theta_directory.Catalog.{Resource, plain_metadata, host_kind}
use theta_directory.Catalog.Subtype.{Cache}

abbrev cache : Cache
cache = some (
    (
      codes "switch",
      record { identity_class = codes "host"; ssh_capable = true; inherits_host = false },
    )
    ∷ [])

abbrev core_switch : Resource
core_switch = record {
  id = codes "r1";
  kind = host_kind;
  name = codes "core";
  slug = codes "host_core";
  metadata = record plain_metadata { sub_type = codes "Switch"; ssh_capable = true };
}
