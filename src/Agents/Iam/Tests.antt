-- ===== src/Agents/Iam/Tests.antt =====
-- A host with one granted group, for nodejs/utils/agent_iam.js.
use theta_directory.Inheritance.{Edge}
use theta_directory.Agents.Iam.{GrantRow}
use theta_directory.Base.{List, [], ◌∷◌, some, Text, codes}
use theta_directory.Groups.{access}
use theta_directory.Catalog.{Resource, plain_metadata, host_kind, site_kind}

abbrev box : Resource
box = record {
  id = codes "b";
  kind = host_kind;
  name = codes "box";
  slug = codes "host_box";
  metadata = plain_metadata;
}

abbrev rows : List Resource
rows =
    box
    ∷ record {
      id = codes "s";
      kind = site_kind;
      name = codes "o";
      slug = codes "o";
      metadata = plain_metadata;
    }
    ∷ []

abbrev links : List Edge
links = record { parent_id = codes "s"; child_id = codes "b" } ∷ []

abbrev grants : List GrantRow
grants =
    record { resource_id = codes "s"; group_cn = codes "dev"; access_level = some access }
    ∷ record { resource_id = codes "s"; group_cn = codes "everyone"; access_level = some access }
    ∷ []

abbrev listed_groups : List Text
listed_groups =
    codes "dev"
    ∷ codes "god_admin"
    ∷ codes "o_host_box_access"
    ∷ codes "o_host_box_admin"
    ∷ codes "o_hosts_access"
    ∷ codes "o_hosts_admin"
    ∷ codes "o_super_admin"
    ∷ []
