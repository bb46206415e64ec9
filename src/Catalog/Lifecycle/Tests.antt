-- ===== src/Catalog/Lifecycle/Tests.antt =====
-- A stale machine and a promoted one, for nodejs/services/discovery_reconciler.js.
use theta_directory.Base.{
  true, false, [], ◌∷◌, codes, ◌==◌, includes, In, ◌≡◌, refl, sym, ap, subst, ◌∙◌, inl, inr, arith,
}
use theta_directory.Catalog.{Resource, plain_metadata, host_kind}
use theta_directory.Catalog.Lifecycle.{Tables, is_collectable, is_older, garbage_collect}
use theta_directory.Catalog.Lifecycle.Survival.{garbage_collect_keeps}

abbrev stale : Resource
stale = record {
  id = codes "r1";
  kind = host_kind;
  name = codes "old";
  slug = codes "host_old";
  metadata = record plain_metadata { discovery_sources = codes "unifi" ∷ []; last_seen = 1 };
}

abbrev promoted : Resource
promoted = record {
  id = codes "r2";
  kind = host_kind;
  name = codes "kept";
  slug = codes "host_kept";
  metadata = record plain_metadata {
    discovery_sources = codes "pve" ∷ [];
    managed = true;
    last_seen = 1;
  };
}

abbrev tables : Tables
tables = record {
  resources = stale ∷ promoted ∷ [];
  edges = record { parent_id = codes "r2"; child_id = codes "r1"; source = codes "unifi" } ∷ [];
  links = [];
}

differ : codes "r1" ≡ codes "r2" → ⊥
differ h = ground arith

no_other_collectable :
    (s : Resource) → In s tables.resources → s.id ≡ promoted.id → is_collectable s ≡ false
unfolding is_collectable
no_other_collectable s (inl e) h = absurd (differ (sym (ap (λ r. r.id) e) ∙ h))
no_other_collectable s (inr (inl e)) h = subst (λ r. is_collectable r ≡ false) (sym e) refl
no_other_collectable s (inr (inr none_left)) h = absurd none_left

garbage_collect_keeps_example : In promoted (garbage_collect 100 10 20 tables).tables.resources
garbage_collect_keeps_example =
    garbage_collect_keeps 100 10 20 tables promoted (inr (inl refl)) no_other_collectable

stale_collectable : is_collectable stale ≡ true
unfolding is_collectable includes ◌==◌
stale_collectable = refl

stale_older : is_older 100 20 stale.metadata.last_seen ≡ true
unfolding is_older
stale_older = refl

never_found :
    (s : Resource)
    → In s tables.resources
    → s.id ≡ promoted.id
    → includes s.metadata.discovery_sources (codes "unifi") ≡ false
unfolding includes ◌==◌
never_found s (inl e) h = absurd (differ (sym (ap (λ r. r.id) e) ∙ h))
never_found s (inr (inl e)) h =
    subst (λ (r : Resource). includes r.metadata.discovery_sources (codes "unifi") ≡ false) (sym e)
      refl
never_found s (inr (inr none_left)) h = absurd none_left
