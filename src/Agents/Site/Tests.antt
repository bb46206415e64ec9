-- ===== src/Agents/Site/Tests.antt =====
-- Two spellings of one site, for nodejs/utils/agent_site.js.
use theta_directory.Base.{
  false, List, [], ◌∷◌, codes, ◌==◌, includes, is_empty, to_lower, trim, is_space, ◌≡◌, refl,
}
use theta_directory.Catalog.{Resource, plain_metadata, site_kind}
use theta_directory.Agents.Site.{normalize_site_key, is_no_hint}

abbrev rows : List Resource
rows =
    record {
      id = codes "s1";
      kind = site_kind;
      name = codes "Oslo";
      slug = codes "site_oslo";
      metadata = plain_metadata;
    }
    ∷ []

first_hint : is_no_hint (trim (codes "site-oslo")) ≡ false
unfolding is_no_hint is_empty trim is_space includes ◌==◌ to_lower
first_hint = refl

second_hint : is_no_hint (trim (codes " Site_Oslo")) ≡ false
unfolding is_no_hint is_empty trim is_space includes ◌==◌ to_lower
second_hint = refl

one_key :
    normalize_site_key (trim (codes "site-oslo")) ≡ normalize_site_key (trim (codes " Site_Oslo"))
unfolding normalize_site_key trim is_space to_lower
one_key = refl
