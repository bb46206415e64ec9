-- ===== src/Catalog/Subtype.antt =====
-- nodejs/services/subtype_templates.js: what a resource gets by its kind and subtype.
pub mod Safe
mod Tests
use theta_directory.Base.{
  Bool, true, false, not, ◌&&◌, ◌||◌, List, [], ◌∷◌, map, filter, Option, none, some, any,
  if◌then◌else◌, Text, codes, ◌==◌, includes, is_empty, or_text, to_lower, get,
}
use theta_directory.Inheritance.{Edge}
use theta_directory.Catalog.{Resource, host_kind, service_kind}

abbrev pub ssh_capable_host_subtypes : List Text
ssh_capable_host_subtypes =
    codes "linux"
    ∷ codes "lxc"
    ∷ codes "vm"
    ∷ codes "proxmox"
    ∷ codes "hypervisor"
    ∷ codes "debian"
    ∷ codes "ubuntu"
    ∷ codes "server"
    ∷ []
    ∷ []

abbrev pub never_ssh_subtypes : List Text
never_ssh_subtypes =
    codes "ilo"
    ∷ codes "bmc"
    ∷ codes "idrac"
    ∷ codes "switch"
    ∷ codes "ap"
    ∷ codes "printer"
    ∷ codes "camera"
    ∷ []

abbrev pub agent_service_subtypes : List Text
agent_service_subtypes =
    codes "theta-agent"
    ∷ codes "port-forward"
    ∷ codes "systemd"
    ∷ codes "docker"
    ∷ codes "podman"
    ∷ codes "process"
    ∷ codes "openrc"
    ∷ codes "systemd-timer"
    ∷ codes "cron"
    ∷ []

abbrev pub bmc_subtypes : List Text
bmc_subtypes = codes "bmc" ∷ codes "ilo" ∷ codes "idrac" ∷ []

-- A row of the cache, the columns that are read below.
pub record CachedTemplate : Type 0 where
  pub identity_class : Text
  pub ssh_capable : Bool
  pub inherits_host : Bool

-- `none` before the first refresh.
abbrev pub Cache : Type 0
Cache = Option (List (Text × CachedTemplate))

unfoldable pub cached_template : Cache → Text → Option CachedTemplate
cached_template none sub_type = none
cached_template (some rows) sub_type = get rows sub_type

pub record Template : Type 0 where
  pub kind : Text
  pub sub_type : Text
  pub ssh_capable : Bool
  pub own_groups : Bool
  pub inherits_host : Bool

abbrev pub container_kind : Text
container_kind = codes "container"

unfoldable pub template_for : Cache → Resource → Template
template_for cache r =
    let sub_type = to_lower r.metadata.sub_type in
    let tpl = cached_template cache sub_type in
    if r.kind == host_kind
    then if includes never_ssh_subtypes sub_type
      then record {
        kind = r.kind;
        sub_type = sub_type;
        ssh_capable = false;
        own_groups = true;
        inherits_host = false;
      }
      else record {
        kind = r.kind;
        sub_type = sub_type;
        ssh_capable = elim tpl [
          | some t ↦ t.ssh_capable
          | none ↦ includes ssh_capable_host_subtypes sub_type
        ];
        own_groups = true;
        inherits_host = false;
      }
    else if r.kind == service_kind || r.kind == container_kind
    then (let agent_managed : Bool = elim tpl [
      | some t ↦ t.inherits_host
      | none ↦ includes agent_service_subtypes sub_type
    ] in
        record {
          kind = r.kind;
          sub_type = sub_type;
          ssh_capable = false;
          own_groups = not agent_managed;
          inherits_host = agent_managed;
        })
    else record {
      kind = r.kind;
      sub_type = sub_type;
      ssh_capable = false;
      own_groups = true;
      inherits_host = false;
    }

abbrev pub bmc : Text
bmc = codes "bmc"

-- The kinds that are older than the vocabulary.
unfoldable pub class_of_kind : Text → Text
class_of_kind kind =
    if kind == container_kind
    then service_kind
    else if kind == codes "template" || kind == bmc || kind == codes "network_device"
    then if kind == bmc then bmc else host_kind
    else or_text kind host_kind

unfoldable pub identity_class_for : Cache → Resource → Text
identity_class_for cache r =
    let sub_type = to_lower r.metadata.sub_type in
    let by_kind = if includes bmc_subtypes sub_type then bmc else class_of_kind r.kind in
    elim (cached_template cache sub_type) [
      | some t ↦ if is_empty t.identity_class then by_kind else t.identity_class
      | none ↦ by_kind
    ]

-- A child of the host among the enrolled agent services.
unfoldable pub has_live_agent : Resource → List Text → List Edge → Bool
has_live_agent r services edges =
    r.kind == host_kind && any (λ e. e.parent_id == r.id && includes services e.child_id) edges

unfoldable pub is_jump_target : Cache → Resource → List Text → List Edge → Bool
is_jump_target cache r services edges =
    r.kind == host_kind
    && (template_for cache r).ssh_capable
    && (has_live_agent r services edges || r.metadata.ssh_capable)
