-- ===== src/Agents/Iam/Login.antt =====
-- nodejs/utils/agent_iam.js lets in whom nodejs/utils/groups.js and the grants let in.
use theta_directory.Base.{List, or_text}
use theta_directory.Groups.{host, Target}
use theta_directory.Inheritance.{Edge}
use theta_directory.Catalog.{Resource}
use theta_directory.Catalog.Ancestors.{find_ancestor_site_slug}

abbrev pub target_of : List Resource → List Edge → Resource → Target
target_of all edges h = record {
  site = find_ancestor_site_slug all edges h.id;
  kind = host;
  slug = or_text h.slug h.name;
}
