-- ===== src/Catalog/Lifecycle/Survival.antt =====
-- What survives, and what is left of what does not, in nodejs/services/discovery_reconciler.js.
use theta_directory.Base.{
  In-filter, All-filter, All-filter_self, ℕ, Bool, true, false, not, ◌&&◌, List, [], ◌∷◌, map,
  if◌then◌else◌, if_cases, Text, ◌==◌, eq_sound, includes, In, All, All-weaken, codes, is_empty,
  ◌≡◌, refl, ◌⊎◌, inl, inr, arith, Bool-cases, subst, sym,
}
use theta_directory.Catalog.{Metadata, Resource}
use theta_directory.Catalog.Lifecycle.{
  Tables, touches, drop_resource, update_metadata, is_collectable, is_older, Collected, collect,
  collect_all, garbage_collect, is_kept, Forgotten, forget, forget_all, drop_edges, forget_source,
}

module _ {A : Type 0} where
  map_keeps : (f : A → A) (xs : List A) (x : A) → In x xs → f x ≡ x → In x (map f xs)
  map_keeps f [] x m h = absurd m
  map_keeps f (y ∷ ys) x (inl e) h = inl (subst (λ z. x ≡ f z) e (sym h))
  map_keeps f (y ∷ ys) x (inr m) h = inr (map_keeps f ys x m h)

drop_keeps :
    (t : Tables) (id : Text) (r : Resource)
    → In r t.resources
    → (r.id == id) ≡ false
    → In r (drop_resource id t).resources
unfolding drop_resource
drop_keeps t id r m apart = In-filter (λ q. not (q.id == id)) t.resources r m (rw apart refl)

update_keeps :
    (t : Tables) (id : Text) (md : Metadata) (r : Resource)
    → In r t.resources
    → (r.id == id) ≡ false
    → In r (update_metadata id md t).resources
unfolding update_metadata
update_keeps t id md r m apart =
    map_keeps (λ q. if q.id == id then record q { metadata = md } else q) t.resources r m
      (rw apart refl)

module _ (now stale_ms purge_ms : ℕ) where
  abbrev Holds : Resource → Collected → Type 0
  Holds r k = In r k.tables.resources

  collect_keeps :
      (c : Collected) (s r : Resource)
      → In r c.tables.resources
      → (is_collectable s ≡ false) ⊎ ((r.id == s.id) ≡ false)
      → In r (collect now stale_ms purge_ms c s).tables.resources
  unfolding collect
  collect_keeps c s r m (inl out) = rw out m
  collect_keeps c s r m (inr apart) = if_cases (Holds r) (not (is_collectable s)) _ _ m (
      if_cases (Holds r) (is_older now purge_ms s.metadata.last_seen) _ _
        (drop_keeps c.tables s.id r m apart)
        (if_cases (Holds r)
          (is_older now stale_ms s.metadata.last_seen
            && not (s.metadata.lifecycle_state == codes "archived"))
          _ _ (update_keeps c.tables s.id _ r m apart) m))

  collect_all_keeps :
      (c : Collected) (rs : List Resource) (r : Resource)
      → In r c.tables.resources
      → ((s : Resource) → In s rs → s.id ≡ r.id → is_collectable s ≡ false)
      → In r (collect_all now stale_ms purge_ms c rs).tables.resources
  unfolding collect_all
  collect_all_keeps c [] r m h = m
  collect_all_keeps c (s ∷ rs) r m h =
      collect_all_keeps (collect now stale_ms purge_ms c s) rs r
        (collect_keeps c s r m (elim (Bool-cases (r.id == s.id)) [
          | inl same ↦ inl (h s (inl refl) (sym (eq_sound r.id s.id same)))
          | inr apart ↦ inr apart
        ]))
        (λ q n. h q (inr n))

  -- A resource that is promoted, or that no source but an operator found, survives every garbage
  -- collection unchanged, if no row that may be collected has its id.
  pub garbage_collect_keeps :
      (t : Tables) (r : Resource)
      → In r t.resources
      → ((s : Resource) → In s t.resources → s.id ≡ r.id → is_collectable s ≡ false)
      → In r (garbage_collect now stale_ms purge_ms t).tables.resources
  unfolding garbage_collect
  garbage_collect_keeps t r m h =
      collect_all_keeps (record { archived = 0; purged = 0; tables = t }) t.resources r m h

  abbrev Clean : Text → Collected → Type 0
  Clean id c = All (λ e. touches id e ≡ false) c.tables.edges

  collect-Clean :
      (c : Collected) (s : Resource) (id : Text)
      → Clean id c
      → Clean id (collect now stale_ms purge_ms c s)
  unfolding collect drop_resource update_metadata
  collect-Clean c s id h = if_cases (Clean id) (not (is_collectable s)) _ _ h (
      if_cases (Clean id) (is_older now purge_ms s.metadata.last_seen) _ _
        (All-filter (λ e. not (touches s.id e)) (λ e. touches id e ≡ false) c.tables.edges h)
        (if_cases (Clean id)
          (is_older now stale_ms s.metadata.last_seen
            && not (s.metadata.lifecycle_state == codes "archived"))
          _ _ h h))

  collect_all-Clean :
      (c : Collected) (rs : List Resource) (id : Text)
      → Clean id c
      → Clean id (collect_all now stale_ms purge_ms c rs)
  unfolding collect_all
  collect_all-Clean c [] id h = h
  collect_all-Clean c (s ∷ rs) id h =
      collect_all-Clean (collect now stale_ms purge_ms c s) rs id (collect-Clean c s id h)

  collect_purged :
      (c : Collected) (r : Resource)
      → is_collectable r ≡ true
      → is_older now purge_ms r.metadata.last_seen ≡ true
      → Clean r.id (collect now stale_ms purge_ms c r)
  unfolding collect drop_resource
  collect_purged c r h old =
      rw (h, old)
        (All-weaken (λ e. not (touches r.id e) ≡ true) (λ e. touches r.id e ≡ false) _
          (λ e n. ground arith) (All-filter_self (λ e. not (touches r.id e)) c.tables.edges))

  collect_all_purged :
      (c : Collected) (rs : List Resource) (r : Resource)
      → In r rs
      → is_collectable r ≡ true
      → is_older now purge_ms r.metadata.last_seen ≡ true
      → Clean r.id (collect_all now stale_ms purge_ms c rs)
  unfolding collect_all
  collect_all_purged c [] r m h old = absurd m
  collect_all_purged c (s ∷ rs) r (inl e) h old =
      collect_all-Clean (collect now stale_ms purge_ms c s) rs r.id
        (subst (λ q. Clean r.id (collect now stale_ms purge_ms c q)) e (collect_purged c r h old))
  collect_all_purged c (s ∷ rs) r (inr m) h old =
      collect_all_purged (collect now stale_ms purge_ms c s) rs r m h old

  -- A resource that is purged leaves no edge behind.
  pub garbage_collect_purged :
      (t : Tables) (r : Resource)
      → In r t.resources
      → is_collectable r ≡ true
      → is_older now purge_ms r.metadata.last_seen ≡ true
      → All (λ e. touches r.id e ≡ false) (garbage_collect now stale_ms purge_ms t).tables.edges
  unfolding garbage_collect
  garbage_collect_purged t r m h old =
      collect_all_purged (record { archived = 0; purged = 0; tables = t }) t.resources r m h old

module _ (source : Text) (keep_promoted : Bool) where
  abbrev Remains : Resource → Forgotten → Type 0
  Remains r f = In r f.tables.resources

  forget_keeps :
      (f : Forgotten) (s r : Resource)
      → In r f.tables.resources
      → (includes s.metadata.discovery_sources source ≡ false) ⊎ ((r.id == s.id) ≡ false)
      → In r (forget source keep_promoted f s).tables.resources
  unfolding forget
  forget_keeps f s r m (inl foreign) = rw foreign m
  forget_keeps f s r m (inr apart) =
      if_cases (Remains r) (not (includes s.metadata.discovery_sources source)) _ _ m (
        if_cases (Remains r) (is_kept source keep_promoted s) _ _
          (update_keeps f.tables s.id _ r m apart) (drop_keeps f.tables s.id r m apart))

  forget_all_keeps :
      (f : Forgotten) (rs : List Resource) (r : Resource)
      → In r f.tables.resources
      → ((s : Resource)
          → In s rs
          → s.id ≡ r.id
          → includes s.metadata.discovery_sources source ≡ false)
      → In r (forget_all source keep_promoted f rs).tables.resources
  unfolding forget_all
  forget_all_keeps f [] r m h = m
  forget_all_keeps f (s ∷ rs) r m h =
      forget_all_keeps (forget source keep_promoted f s) rs r
        (forget_keeps f s r m (elim (Bool-cases (r.id == s.id)) [
          | inl same ↦ inl (h s (inl refl) (sym (eq_sound r.id s.id same)))
          | inr apart ↦ inr apart
        ]))
        (λ q n. h q (inr n))

  -- Forgetting a source leaves no edge of it, and does not change a resource that it never found.
  pub forget_source_foreign :
      (t : Tables) (r : Resource)
      → is_empty source ≡ false
      → In r t.resources
      → ((s : Resource)
          → In s t.resources
          → s.id ≡ r.id
          → includes s.metadata.discovery_sources source ≡ false)
      → In r (forget_source source keep_promoted t).tables.resources
        × All
            (λ e. (e.source == source) ≡ false)
            (forget_source source keep_promoted t).tables.edges
  unfolding forget_source drop_edges
  forget_source_foreign t r n m h = rw n (
    forget_all_keeps _ t.resources r m h,
    All-weaken (λ e. not (e.source == source) ≡ true) (λ e. (e.source == source) ≡ false) _
        (λ e k. ground arith) (All-filter_self (λ e. not (e.source == source)) _),
  )
