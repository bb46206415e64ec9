-- ===== src/Catalog/Projection/Reach.antt =====
-- What makes a resource accessible in nodejs/services/access_projection.js.
use theta_directory.Base.{
  filter-In, true, not, ◌&&◌, ◌||◌, List, [], ◌∷◌, ◌≡◌, refl, ◌⊎◌, inl, inr, arith, Text, eq_iff,
  eq_refl, includes, is_empty, In, Bool-cases, subst,
}
use theta_directory.Inheritance.{Edge}
use theta_directory.Catalog.{Resource}
use theta_directory.Catalog.Subtype.{Cache, template_for}
use theta_directory.Catalog.Projection.{
  Caller, in_catalog, is_granted, host_of, inherited_grants, is_managed_host, may_reach_host, reach,
  reach_all, follow, follow_all, reachable_ids, accessible_resources,
}

includes-cons :
    (x k : Text) (xs : List Text) → includes (x ∷ xs) k ≡ true → (x ≡ k) ⊎ (includes xs k ≡ true)
unfolding includes
includes-cons x k xs h = ground (arith, eq_iff x k)

includes_here : (x : Text) (xs : List Text) → includes (x ∷ xs) x ≡ true
unfolding includes
includes_here x xs = ground (arith, eq_refl x)

includes_there : (x k : Text) (xs : List Text) → includes xs k ≡ true → includes (x ∷ xs) k ≡ true
unfolding includes
includes_there x k xs h = ground arith

module _ (cache : Cache) (all : List Resource) (edges : List Edge) (caller : Caller) where
  -- The three reasons, whatever the order of the resources.
  pub data Reachable : Text → Type 0 where
    by_grant :
        (r : Resource)
        → In r all
        → in_catalog r ≡ true
        → is_granted (inherited_grants cache all edges caller) r ≡ true
        → Reachable r.id
    by_host_groups :
        (r : Resource)
        → In r all
        → in_catalog r ≡ true
        → is_managed_host cache all edges caller r ≡ true
        → may_reach_host cache all edges caller r ≡ true
        → Reachable r.id
    by_host :
        (r : Resource)
        → In r all
        → in_catalog r ≡ true
        → (template_for cache r).inherits_host ≡ true
        → Reachable (host_of edges r)
        → Reachable r.id

  abbrev IsReached : List Text → Type 0
  IsReached ids = (id : Text) → includes ids id ≡ true → Reachable id

  cons-IsReached : (x : Text) (ids : List Text) → Reachable x → IsReached ids → IsReached (x ∷ ids)
  cons-IsReached x ids h k id m = elim (includes-cons x id ids m) [
    | inl same ↦ subst Reachable same h
    | inr old ↦ k id old
  ]

  reach-IsReached :
      (ids : List Text) (r : Resource)
      → In r all
      → IsReached ids
      → IsReached (reach cache all edges caller ids r)
  unfolding reach
  reach-IsReached ids r m h = elim (Bool-cases (in_catalog r)) [
    | inr out ↦ rw out h
    | inl known ↦ elim (Bool-cases (is_granted (inherited_grants cache all edges caller) r)) [
      | inl granted ↦ rw (known, granted) (cons-IsReached r.id ids (by_grant r m known granted) h)
      | inr other ↦ elim (Bool-cases (is_managed_host cache all edges caller r)) [
        | inr free ↦ rw (known, other, free) h
        | inl managed ↦ elim (Bool-cases (may_reach_host cache all edges caller r)) [
          | inr shut ↦ rw (known, other, managed, shut) h
          | inl admitted ↦
              rw (known, other, managed, admitted)
                (cons-IsReached r.id ids (by_host_groups r m known managed admitted) h)
        ]
      ]
    ]
  ]

  reach_all-IsReached :
      (ids : List Text) (rs : List Resource)
      → ((r : Resource) → In r rs → In r all)
      → IsReached ids
      → IsReached (reach_all cache all edges caller ids rs)
  unfolding reach_all
  reach_all-IsReached ids [] sub h = h
  reach_all-IsReached ids (r ∷ rs) sub h =
      reach_all-IsReached (reach cache all edges caller ids r) rs (λ s m. sub s (inr m))
        (reach-IsReached ids r (sub r (inl refl)) h)

  follow-IsReached :
      (ids : List Text) (r : Resource)
      → In r all
      → IsReached ids
      → IsReached (follow cache all edges caller ids r)
  unfolding follow
  follow-IsReached ids r m h =
      elim (Bool-cases
        (includes ids r.id || not (in_catalog r) || not (template_for cache r).inherits_host)) [
          | inl skipped ↦ rw skipped h
          | inr looked ↦
              elim (Bool-cases
                (not (is_empty (host_of edges r)) && includes ids (host_of edges r))) [
                  | inr none_there ↦ rw (looked, none_there) h
                  | inl there ↦
                      rw (looked, there)
                        (cons-IsReached r.id ids
                          (by_host r m (ground arith) (ground arith)
                            (h (host_of edges r) (ground arith)))
                          h)
                ]
        ]

  follow_all-IsReached :
      (ids : List Text) (rs : List Resource)
      → ((r : Resource) → In r rs → In r all)
      → IsReached ids
      → IsReached (follow_all cache all edges caller ids rs)
  unfolding follow_all
  follow_all-IsReached ids [] sub h = h
  follow_all-IsReached ids (r ∷ rs) sub h =
      follow_all-IsReached (follow cache all edges caller ids r) rs (λ s m. sub s (inr m))
        (follow-IsReached ids r (sub r (inl refl)) h)

  reachable-IsReached : IsReached (reachable_ids cache all edges caller)
  unfolding reachable_ids includes
  reachable-IsReached =
      follow_all-IsReached (reach_all cache all edges caller [] all) all (λ r m. m)
        (reach_all-IsReached [] all (λ r m. m) (λ id h. ground arith))

  -- A resource is offered only for one of the three reasons.
  pub accessible_sound :
      (r : Resource)
      → In r (accessible_resources cache all edges caller)
      → In r all × Reachable r.id
  unfolding accessible_resources
  accessible_sound r h =
      let (m, y) = filter-In (λ s. includes (reachable_ids cache all edges caller) s.id) all r h in
      (m, reachable-IsReached r.id y)
