-- ===== src/Agents/Services/Tests.antt =====
-- A service that an agent does not report any more, for nodejs/utils/agent_manager.js.
use theta_directory.Base.{true, false, [], ◌∷◌, codes, In, ◌≡◌, refl, inl, inr}
use theta_directory.Catalog.{Resource, plain_metadata, service_kind}
use theta_directory.Agents.Binding.{Estate, is_agent_service}
use theta_directory.Agents.Services.{is_mine, prune_services}
use theta_directory.Agents.Services.Kept.{IsAccounted, prune_services-IsAccounted}

abbrev web : Resource
web = record {
  id = codes "r1";
  kind = service_kind;
  name = codes "web";
  slug = codes "svc-web";
  metadata = record plain_metadata {
    sub_type = codes "docker";
    host_id = codes "h1";
    discovery_sources = codes "theta-agent" ∷ codes "docker-socket" ∷ [];
  };
}

abbrev estate : Estate
estate = record { resources = web ∷ []; edges = [] }

only_web : (s : Resource) → In s (web ∷ []) → s.id ≡ web.id → s ≡ web
only_web s (inl here) same = here
only_web s (inr none_left) same = absurd none_left

prune_services-IsAccounted_example :
    IsAccounted [] web (prune_services (codes "h1") [] [] (web ∷ []) estate)
    × (is_mine (codes "h1") [] web ≡ false
        → In web (prune_services (codes "h1") [] [] (web ∷ []) estate).resources)
    × (is_agent_service web ≡ true
        → In web (prune_services (codes "h1") [] [] (web ∷ []) estate).resources)
prune_services-IsAccounted_example =
    prune_services-IsAccounted (codes "h1") [] [] (web ∷ []) estate web (inl refl) only_web
