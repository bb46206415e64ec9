-- ===== src/Agents/Iam.antt =====
-- nodejs/utils/agent_iam.js: which groups may log in to a host.
pub mod Sorted
pub mod Grants
pub mod Login
mod Tests
use theta_directory.Base.{
  Bool, true, false, not, ◌&&◌, ◌||◌, List, [], ◌∷◌, filter, Option, none, some, ltb, leb,
  if◌then◌else◌, Text, codes, ◌==◌, is_empty, or_text, get, put, get_or,
}
use theta_directory.Groups.{
  god_admin, admin, access, host, resource_name_slug, resource_cn, aggregate_cn, slugify,
  site_super_admin_cns, is_meta_group,
}
use theta_directory.Inheritance.{Edge, Levels, Level, rank_of, level_of, effective_grants}
use theta_directory.Catalog.{Resource, host_kind}
use theta_directory.Catalog.Rollup.{add_tags}
use theta_directory.Catalog.Ancestors.{find_ancestor_site_slug}

-- A row of `ResourceGroup`.
pub record GrantRow : Type 0 where
  pub resource_id : Text
  pub group_cn : Text
  pub access_level : Level

-- `byGroup.get(g.groupCn).set(g.resourceId, g.accessLevel)`
unfoldable pub by_group_from : List (Text × Levels) → List GrantRow → List (Text × Levels)
by_group_from index [] = index
by_group_from index (g ∷ gs) =
    by_group_from
      (if is_empty g.group_cn || is_empty g.resource_id
        then index
        else put index g.group_cn
            (put (get_or (get index g.group_cn) []) g.resource_id g.access_level))
      gs

-- The order of JavaScript on texts, by code units.
unfoldable pub text_le : Text → Text → Bool
text_le [] t = true
text_le (c ∷ s) [] = false
text_le (c ∷ s) (d ∷ t) = ltb c d || (not (ltb d c) && text_le s t)

unfoldable pub insert_text : Text → List Text → List Text
insert_text t [] = t ∷ []
insert_text t (u ∷ us) = if text_le t u then t ∷ u ∷ us else u ∷ insert_text t us

-- `.sort()`
unfoldable pub sort_texts : List Text → List Text
sort_texts [] = []
sort_texts (t ∷ ts) = insert_text t (sort_texts ts)

-- The groups that exist by their names; a host is a kind that has groups.
unfoldable pub structural_groups : Text → Text → List Text
structural_groups site name_slug =
    god_admin
    ∷ site_super_admin_cns site
    ∷ aggregate_cn site host admin
    ∷ aggregate_cn site host access
    ∷ resource_cn site host (slugify name_slug) admin
    ∷ resource_cn site host (slugify name_slug) access
    ∷ []

-- A group may log in by its grants: it is no meta group and reaches `LOGIN_RANK` on the host.
unfoldable pub may_log_in : List Edge → Text → Text × Levels → Bool
may_log_in edges id (cn, direct) =
    not (is_meta_group cn)
    && leb (rank_of (some access)) (rank_of (level_of (effective_grants direct edges []) id))

unfoldable pub add_granted : List Edge → Text → List Text → List (Text × Levels) → List Text
add_granted edges id cns [] = cns
add_granted edges id cns ((cn, direct) ∷ more) =
    add_granted edges id (if may_log_in edges id (cn, direct) then add_tags cns (cn ∷ []) else cns)
      more

-- `buildNodeIAM`, its `allowed_login_groups`; the fields that are always empty are left out.
unfoldable pub login_groups :
    List Resource → List Edge → List GrantRow → Resource → Option (List Text)
login_groups all edges rows h =
    let site = find_ancestor_site_slug all edges h.id in
    let named = structural_groups site (resource_name_slug (or_text h.slug h.name)) in
    if not (h.kind == host_kind) || is_empty site
    then none
    else some (
        sort_texts (
          filter (λ cn. not (is_empty cn))
            (add_granted edges h.id (add_tags [] named) (by_group_from [] rows))))
