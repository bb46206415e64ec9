-- ===== src/Catalog/Projection/Complete.antt =====
-- What is sure to be offered by nodejs/services/access_projection.js.
use theta_directory.Base.{
  true, false, List, [], ◌∷◌, In, In-filter, ◌≡◌, inl, inr, arith, Text, eq_refl, includes,
  is_empty, subst, Distinct,
}
use theta_directory.Inheritance.{Edge}
use theta_directory.Catalog.{Resource}
use theta_directory.Catalog.Subtype.{Cache, template_for}
use theta_directory.Catalog.Projection.{
  Caller, in_catalog, direct_grants, host_of, reach, reach_all, follow, follow_all, reachable_ids,
  accessible_resources,
}
use theta_directory.Catalog.Projection.Reasons.{
  IsListed, listed-in_catalog, Reason, Offered, itself, on_host, IsAdmitted, reason-IsAdmitted,
}

includes_here : (x : Text) (xs : List Text) → includes (x ∷ xs) x ≡ true
unfolding includes
includes_here x xs = ground (arith, eq_refl x)

includes_there : (x k : Text) (xs : List Text) → includes xs k ≡ true → includes (x ∷ xs) k ≡ true
unfolding includes
includes_there x k xs h = ground arith

module _ (cache : Cache) (all : List Resource) (edges : List Edge) (caller : Caller) where
  abbrev Includes : List Text → List Text → Type 0
  Includes xs ys = (id : Text) → includes xs id ≡ true → includes ys id ≡ true

  follow-Includes :
      (ids : List Text) (r : Resource) → Includes ids (follow cache all edges caller ids r)
  unfolding follow
  follow-Includes ids r id h = ground (arith, includes_there r.id id ids h)

  follow_all-Includes :
      (ids : List Text) (rs : List Resource)
      → Includes ids (follow_all cache all edges caller ids rs)
  unfolding follow_all
  follow_all-Includes ids [] id h = h
  follow_all-Includes ids (r ∷ rs) id h =
      follow_all-Includes (follow cache all edges caller ids r) rs id (follow-Includes ids r id h)

  reach-Includes :
      (ids : List Text) (r : Resource) → Includes ids (reach cache all edges caller ids r)
  unfolding reach
  reach-Includes ids r id h = ground (arith, includes_there r.id id ids h)

  reach_all-Includes :
      (ids : List Text) (rs : List Resource)
      → Includes ids (reach_all cache all edges caller ids rs)
  unfolding reach_all
  reach_all-Includes ids [] id h = h
  reach_all-Includes ids (r ∷ rs) id h =
      reach_all-Includes (reach cache all edges caller ids r) rs id (reach-Includes ids r id h)

  reach_admitted :
      (ids : List Text) (r : Resource)
      → in_catalog r ≡ true
      → IsAdmitted cache all edges caller r
      → includes (reach cache all edges caller ids r) r.id ≡ true
  unfolding reach
  reach_admitted ids r known h = ground (arith, includes_here r.id ids, h)

  reach_all_admitted :
      (ids : List Text) (rs : List Resource) (r : Resource)
      → In r rs
      → in_catalog r ≡ true
      → IsAdmitted cache all edges caller r
      → includes (reach_all cache all edges caller ids rs) r.id ≡ true
  unfolding reach_all
  reach_all_admitted ids [] r m known h = absurd m
  reach_all_admitted ids (s ∷ rs) r (inl same) known h =
      reach_all-Includes (reach cache all edges caller ids s) rs r.id (
        subst (λ q. includes (reach cache all edges caller ids q) r.id ≡ true) same
          (reach_admitted ids r known h))
  reach_all_admitted ids (s ∷ rs) r (inr m) known h =
      reach_all_admitted (reach cache all edges caller ids s) rs r m known h

  first_loop :
      (r : Resource)
      → In r all
      → IsListed r
      → Distinct (direct_grants caller.grants)
      → Reason cache all edges caller r
      → includes (reach_all cache all edges caller [] all) r.id ≡ true
  first_loop r m listed d h =
      reach_all_admitted [] all r m (listed-in_catalog r listed)
        (reason-IsAdmitted cache all edges caller r d h)

  follow_host :
      (ids : List Text) (r : Resource) (host_id : Text)
      → in_catalog r ≡ true
      → (template_for cache r).inherits_host ≡ true
      → host_of edges r ≡ host_id
      → is_empty host_id ≡ false
      → includes ids host_id ≡ true
      → includes (follow cache all edges caller ids r) r.id ≡ true
  unfolding follow
  follow_host ids r host_id known inherits at named there =
      rw at (ground (arith, includes_here r.id ids, known, inherits, named, there))

  follow_all_host :
      (ids : List Text) (rs : List Resource) (r : Resource) (host_id : Text)
      → In r rs
      → in_catalog r ≡ true
      → (template_for cache r).inherits_host ≡ true
      → host_of edges r ≡ host_id
      → is_empty host_id ≡ false
      → includes ids host_id ≡ true
      → includes (follow_all cache all edges caller ids rs) r.id ≡ true
  unfolding follow_all
  follow_all_host ids [] r host_id m known inherits at named there = absurd m
  follow_all_host ids (s ∷ rs) r host_id (inl same) known inherits at named there =
      follow_all-Includes (follow cache all edges caller ids s) rs r.id (
        subst (λ q. includes (follow cache all edges caller ids q) r.id ≡ true) same
          (follow_host ids r host_id known inherits at named there))
  follow_all_host ids (s ∷ rs) r host_id (inr m) known inherits at named there =
      follow_all_host (follow cache all edges caller ids s) rs r host_id m known inherits at named
        (follow-Includes ids s host_id there)

  Offered-reachable_ids :
      (r : Resource)
      → In r all
      → IsListed r
      → Distinct (direct_grants caller.grants)
      → Offered cache all edges caller r
      → includes (reachable_ids cache all edges caller) r.id ≡ true
  unfolding reachable_ids
  Offered-reachable_ids r m listed d (itself h) =
      follow_all-Includes (reach_all cache all edges caller [] all) all r.id
        (first_loop r m listed d h)
  Offered-reachable_ids r m listed d (on_host h in_all host_listed reason inherits at named) =
      follow_all_host (reach_all cache all edges caller [] all) all r h.id m
        (listed-in_catalog r listed) inherits at named (first_loop h in_all host_listed d reason)

  -- A resource that is managed, or neither archived nor found by discovery alone, is offered if it
  -- is public, if a grant of some rank stands on it or above it, if it is a host with a live
  -- agent, of a type that takes shells, to which the caller's groups give access, or if it inherits
  -- from a host of which this holds. The grants name each resource once.
  pub accessible_complete :
      (r : Resource)
      → In r all
      → IsListed r
      → Distinct (direct_grants caller.grants)
      → Offered cache all edges caller r
      → In r (accessible_resources cache all edges caller)
  unfolding accessible_resources
  accessible_complete r m listed d h =
      In-filter (λ s. includes (reachable_ids cache all edges caller) s.id) all r m
        (Offered-reachable_ids r m listed d h)
