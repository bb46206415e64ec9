-- ===== src/Catalog/Projection/Reasons.antt =====
-- Why nodejs/services/access_projection.js takes a resource.
use theta_directory.Base.{
  ◌<◌, Bool, true, false, not, ◌&&◌, List, [], ◌∷◌, map, filter, any, In, In-filter, ◌≡◌, refl, ap,
  ◌⊎◌, inl, inr, arith, Text, codes, ◌==◌, eq_iff, includes, includes-In, is_empty, has, get-has,
  Bool-cases, subst, ok, Distinct,
}
use theta_directory.Groups.{has_permission, host, access}
use theta_directory.Inheritance.{Edge, Level, Levels, rank_of, level_of, effective_grants}
use theta_directory.Inheritance.Index.{Below}
use theta_directory.Inheritance.Final.{effective_grants_complete}
use theta_directory.Catalog.{Resource, host_kind, service_kind}
use theta_directory.Catalog.Subtype.{Cache, template_for, has_live_agent}
use theta_directory.Catalog.Projection.{
  Agent, Caller, in_catalog, direct_grants, is_granted, enrolled, agent_service_ids, site_slug_of,
  allows, host_of, inherited_grants, is_managed_host, may_reach_host,
}

In-any : {A : Type 0} (p : A → Bool) (xs : List A) (x : A) → In x xs → p x ≡ true → any p xs ≡ true
In-any p [] x m h = absurd m
In-any p (y ∷ ys) x (inl same) h = ground (arith, subst (λ z. p z ≡ true) same h)
In-any p (y ∷ ys) x (inr m) h = ground (arith, In-any p ys x m h)

In-map : {A : Type 0} (f : A → Text) (xs : List A) (x : A) → In x xs → In (f x) (map f xs)
In-map f [] x m = absurd m
In-map f (y ∷ ys) x (inl same) = inl (ap f same)
In-map f (y ∷ ys) x (inr m) = inr (In-map f ys x m)

has-level_of : (m : Levels) (id : Text) → 0 < rank_of (level_of m id) → has m id ≡ true
unfolding level_of rank_of
has-level_of m id h = elim (Bool-cases (has m id)) [
  | inl held ↦ held
  | inr absent ↦ absurd (ground (arith, rw (get-has m id absent, level_of) at h))
]

-- Managed, or neither archived nor found by discovery alone.
abbrev pub IsListed : Resource → Type 0
IsListed r =
    (r.metadata.managed ≡ true)
    ⊎ (((r.metadata.lifecycle_state == codes "archived") ≡ false)
        × ((r.metadata.discovery_sources ≡ [])
            ⊎ (includes r.metadata.discovery_sources (codes "manual") ≡ true)))

pub listed-in_catalog : (r : Resource) → IsListed r → in_catalog r ≡ true
unfolding in_catalog
listed-in_catalog r (inl managed) = ground (arith, managed)
listed-in_catalog r (inr (live, inl none_found)) = rw (live, none_found) refl
listed-in_catalog r (inr (live, inr manual)) = ground (arith, live, manual)

module _ (cache : Cache) (all : List Resource) (edges : List Edge) (caller : Caller) where
  -- A host on which an agent runs that is enrolled and was not revoked.
  pub record RunsAgent (r : Resource) : Type 0 where
    pub is_host : r.kind ≡ host_kind
    pub takes_shells : (template_for cache r).ssh_capable ≡ true
    pub agent : Agent
    pub is_agent : In agent caller.agents
    pub is_live : agent.revoked ≡ false
    pub service : Resource
    pub is_row : In service all
    pub is_service : service.kind ≡ service_kind
    pub is_for_agents : service.metadata.sub_type ≡ codes "theta-agent"
    pub is_named : is_empty service.id ≡ false
    pub is_bound : agent.resource_id ≡ service.id
    pub edge : Edge
    pub is_edge : In edge edges
    pub from_host : edge.parent_id ≡ r.id
    pub to_service : edge.child_id ≡ service.id

  -- Why the first loop takes a resource: it is public, a grant on it or above it, or the groups of
  -- its host.
  pub data Reason (r : Resource) : Type 0 where
    open_to_all : r.metadata.is_public ≡ true → Reason r
    granted :
        (root : Text) (l : Level)
        → In (root, l) (direct_grants caller.grants)
        → 0 < rank_of l
        → Below edges root r.id
        → Reason r
    by_groups :
        RunsAgent r
        → has_permission caller.member_of
            (record { site = site_slug_of all edges r; kind = host; slug = r.slug })
            access
          ≡ ok true
        → Reason r

  -- A reason of its own, or one of the host that it stands on.
  pub data Offered (r : Resource) : Type 0 where
    itself : Reason r → Offered r
    on_host :
        (h : Resource)
        → In h all
        → IsListed h
        → Reason h
        → (template_for cache r).inherits_host ≡ true
        → host_of edges r ≡ h.id
        → is_empty h.id ≡ false
        → Offered r

  abbrev pub IsAdmitted : Resource → Type 0
  IsAdmitted r =
      (is_granted (inherited_grants cache all edges caller) r ≡ true)
      ⊎ ((is_managed_host cache all edges caller r ≡ true)
          × (may_reach_host cache all edges caller r ≡ true))

  enrolled-In :
      (a : Agent) (id : Text)
      → In a caller.agents
      → a.revoked ≡ false
      → a.resource_id ≡ id
      → is_empty id ≡ false
      → includes (enrolled caller.agents) id ≡ true
  unfolding enrolled
  enrolled-In a id m live bound named = includes-In (enrolled caller.agents) id (
      In-filter (λ i. not (is_empty i)) _ id
        (subst (λ i. In i (map (λ b. b.resource_id) (filter (λ b. not b.revoked) caller.agents)))
          bound
          (In-map (λ b. b.resource_id) _ a
            (In-filter (λ b. not b.revoked) caller.agents a m (ground arith))))
        (ground arith))

  service-In :
      (r : Resource) (h : RunsAgent r)
      → includes (agent_service_ids all caller.agents) h.service.id ≡ true
  unfolding agent_service_ids
  service-In r h = includes-In (agent_service_ids all caller.agents) h.service.id (
      In-map (λ s. s.id) _ h.service
        (In-filter
          (λ s.
            s.kind == service_kind
            && s.metadata.sub_type == codes "theta-agent"
            && includes (enrolled caller.agents) s.id)
          all h.service h.is_row
          (ground (
            arith,
            enrolled-In h.agent h.service.id h.is_agent h.is_live h.is_bound h.is_named,
            eq_iff h.service.kind service_kind,
            eq_iff h.service.metadata.sub_type (codes "theta-agent"),
          ))))

  RunsAgent-is_managed_host :
      (r : Resource) → RunsAgent r → is_managed_host cache all edges caller r ≡ true
  unfolding is_managed_host has_live_agent
  RunsAgent-is_managed_host r h = ground (
    arith,
    h.takes_shells,
    eq_iff r.kind host_kind,
    h.is_host,
    In-any (λ e. e.parent_id == r.id && includes (agent_service_ids all caller.agents) e.child_id)
        edges h.edge h.is_edge
        (rw h.to_service
          (ground (arith, service-In r h, eq_iff h.edge.parent_id r.id, h.from_host))),
  )

  pub reason-IsAdmitted :
      (r : Resource) → Distinct (direct_grants caller.grants) → Reason r → IsAdmitted r
  unfolding is_granted may_reach_host allows inherited_grants
  reason-IsAdmitted r d (open_to_all h) = inl (ground (arith, h))
  reason-IsAdmitted r d (granted root l g strong below) = inl (
      ground (
        arith,
        has-level_of (effective_grants (direct_grants caller.grants) edges caller.non_inheriting)
            r.id
            (omega (
              arith,
              strong,
              effective_grants_complete (direct_grants caller.grants) edges caller.non_inheriting
                  root r.id l d g below,
            )),
      ))
  reason-IsAdmitted r d (by_groups h allowed) = inr (RunsAgent-is_managed_host r h, rw allowed refl)
