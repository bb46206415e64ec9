-- ===== src/Agents/Binding/Ensure.antt =====
-- A service that nodejs/utils/agent_binding.js creates is found again, from both ends.
use theta_directory.Base.{
  Bool, true, false, List, [], ◌∷◌, ◌++◌, map, filter, find, none, some, if◌then◌else◌, Text, ◌==◌,
  eq_iff, eq_refl, is_empty, ◌≡◌, refl, sym, ◌∙◌, ap, inl, inr, Bool-cases, Option-cases, subst,
  none≢some,
}
use theta_directory.Inheritance.{Edge}
use theta_directory.Catalog.{Resource, host_kind}
use theta_directory.Catalog.Rollup.{find_resource}
use theta_directory.Agents.Binding.{
  Estate, Call, create_service, link_service, has_slug, add_row, add_edge, create_below,
  agent_service_slug, is_agent_service, first_row, child_ids, parent_ids, find_agent_service,
  new_service, ensure_agent_service, host_for_agent,
}

-- The rows and the edges do not know the id.
abbrev pub IsFresh : Estate → Text → Type 0
IsFresh e id =
    (is_empty id ≡ false) × (find_resource e.resources id ≡ none) × (parent_ids e.edges id ≡ [])

find_resource-append :
    (all : List Resource) (s : Resource) (id : Text)
    → find_resource all id ≡ none
    → find_resource (all ++ s ∷ []) id ≡ (if s.id == id then some s else none)
unfolding find_resource
find_resource-append [] s id h = elim (Bool-cases (s.id == id)) [
  | inl same ↦ rw (same, find_resource, find) refl
  | inr other ↦ rw (other, find_resource, find) refl
]
find_resource-append (r ∷ rs) s id h = elim (Bool-cases (r.id == id)) [
  | inl same ↦ absurd (none≢some (sym (rw (same, find_resource, find) at h)))
  | inr other ↦
      rw (other, find_resource, find)
        (find_resource-append rs s id (rw (other, find_resource, find) at h))
]

find_resource-append_old :
    (all : List Resource) (s r : Resource) (id : Text)
    → find_resource all id ≡ some r
    → find_resource (all ++ s ∷ []) id ≡ some r
unfolding find_resource
find_resource-append_old [] s r id h = absurd (none≢some h)
find_resource-append_old (t ∷ ts) s r id h = elim (Bool-cases (t.id == id)) [
  | inl same ↦ rw (same, find_resource, find) (rw (same, find_resource, find) at h)
  | inr other ↦
      rw (other, find_resource, find)
        (find_resource-append_old ts s r id (rw (other, find_resource, find) at h))
]

-- A new row that passes the test is found behind the old ids, where none of the old rows did.
first_row-append :
    (test : Resource → Bool) (all : List Resource) (s : Resource) (ids : List Text)
    → test s ≡ true
    → find_resource all s.id ≡ none
    → first_row test all ids ≡ none
    → first_row test (all ++ s ∷ []) (ids ++ s.id ∷ []) ≡ some s
unfolding first_row
first_row-append test all s [] passes fresh h =
    let e : find_resource (all ++ s ∷ []) s.id ≡ some s =
      find_resource-append all s s.id fresh ∙ rw (eq_refl s.id) refl in
    rw (e, passes, first_row) refl
first_row-append test all s (id ∷ ids) passes fresh h = elim (Option-cases (find_resource all id)) [
  | inl missing ↦
      let rest = first_row-append test all s ids passes fresh (rw (missing, first_row) at h) in
      let e = find_resource-append all s id missing in
      elim (Bool-cases (s.id == id)) [
        | inl same ↦
            let at_new : find_resource (all ++ s ∷ []) id ≡ some s = e ∙ rw same refl in
            rw (at_new, passes, first_row) refl
        | inr other ↦
            let nowhere : find_resource (all ++ s ∷ []) id ≡ none = e ∙ rw other refl in
            rw (nowhere, first_row) rest
      ]
  | inr (r, found) ↦ elim (Bool-cases (test r)) [
    | inl hit ↦ absurd (none≢some (sym (rw (found, hit, first_row) at h)))
    | inr miss ↦
        rw (find_resource-append_old all s r id found, miss, first_row)
          (first_row-append test all s ids passes fresh (rw (found, miss, first_row) at h))
  ]
]

-- A new edge adds its child behind the others, and its parent only for that child.
child_ids-append :
    (edges : List Edge) (p c : Text)
    → child_ids (edges ++ record { parent_id = p; child_id = c } ∷ []) p
      ≡ child_ids edges p ++ c ∷ []
unfolding child_ids
child_ids-append [] p c = rw (eq_refl p, filter, map) refl
child_ids-append (e ∷ es) p c = elim (Bool-cases (e.parent_id == p)) [
  | inl same ↦ rw (same, filter, map) (ap (λ ids. e.child_id ∷ ids) (child_ids-append es p c))
  | inr other ↦ rw (other, filter, map) (child_ids-append es p c)
]

parent_ids-append :
    (edges : List Edge) (p c : Text)
    → parent_ids (edges ++ record { parent_id = p; child_id = c } ∷ []) c
      ≡ parent_ids edges c ++ p ∷ []
unfolding parent_ids
parent_ids-append [] p c = rw (eq_refl c, filter, map) refl
parent_ids-append (e ∷ es) p c = elim (Bool-cases (e.child_id == c)) [
  | inl same ↦ rw (same, filter, map) (ap (λ ids. e.parent_id ∷ ids) (parent_ids-append es p c))
  | inr other ↦ rw (other, filter, map) (parent_ids-append es p c)
]

new_service-passes : (id : Text) (h : Resource) → is_agent_service (new_service id h) ≡ true
unfolding is_agent_service new_service ◌==◌
new_service-passes id h = refl

abbrev extended : Text → Estate → Resource → Estate
extended fresh e h = record {
  resources = e.resources ++ new_service fresh h ∷ [];
  edges = e.edges ++ record { parent_id = h.id; child_id = fresh } ∷ [];
}

ensure-old :
    (fails : Call → Bool) (fresh : Text) (e : Estate) (h s : Resource)
    → find_agent_service e h ≡ some s
    → ensure_agent_service fails fresh e h ≡ (some s, e)
unfolding ensure_agent_service
ensure-old fails fresh e h s found = rw (found, ensure_agent_service) refl

-- The database takes the row and its edge.
abbrev pub IsAccepted : (Call → Bool) → Estate → Resource → Type 0
IsAccepted fails e h =
    (fails create_service ≡ false)
    × (fails link_service ≡ false)
    × (has_slug e.resources (agent_service_slug h.slug) ≡ false)

ensure-new :
    (fails : Call → Bool) (fresh : Text) (e : Estate) (h : Resource)
    → IsAccepted fails e h
    → find_agent_service e h ≡ none
    → ensure_agent_service fails fresh e h ≡ (some (new_service fresh h), extended fresh e h)
unfolding ensure_agent_service create_below new_service add_row add_edge
ensure-new fails fresh e h (created, linked, unused) absent =
    rw (absent, created, linked, unused, ensure_agent_service) refl

extended-service :
    (fresh : Text) (e : Estate) (h : Resource)
    → find_resource e.resources fresh ≡ none
    → find_agent_service e h ≡ none
    → find_agent_service (extended fresh e h) h ≡ some (new_service fresh h)
unfolding find_agent_service new_service
extended-service fresh e h new absent = rw (child_ids-append e.edges h.id fresh) (
    first_row-append is_agent_service e.resources (new_service fresh h) (child_ids e.edges h.id)
      (new_service-passes fresh h) new absent)

first_row-one :
    (test : Resource → Bool) (all : List Resource) (r : Resource) (id : Text)
    → find_resource all id ≡ some r
    → test r ≡ true
    → first_row test all (id ∷ []) ≡ some r
unfolding first_row
first_row-one test all r id found passes = rw (found, passes, first_row) refl

extended-host :
    (fresh : Text) (e : Estate) (h : Resource)
    → IsFresh e fresh
    → find_resource e.resources h.id ≡ some h
    → h.kind ≡ host_kind
    → host_for_agent (extended fresh e h) fresh ≡ some h
unfolding host_for_agent new_service
extended-host fresh e h (named, new, unlinked) known is_host =
    let at_new : find_resource (extended fresh e h).resources fresh ≡ some (new_service fresh h) =
      find_resource-append e.resources (new_service fresh h) fresh new ∙ rw (eq_refl fresh) refl in
    let at_host = find_resource-append_old e.resources (new_service fresh h) h h.id known in
    let up : parent_ids (extended fresh e h).edges fresh ≡ h.id ∷ [] =
      parent_ids-append e.edges h.id fresh ∙ rw unlinked refl in
    rw (named, at_new, new_service-passes fresh h, up, host_for_agent)
      (first_row-one (λ r. r.kind == host_kind) (extended fresh e h).resources h h.id at_host
        ((eq_iff h.kind host_kind).1 is_host))

-- Where the database takes it, the service of a host is found after it was ensured, and to ensure it
-- again changes nothing.
pub ensure_agent_service-found :
    (fails : Call → Bool) (fresh : Text) (e : Estate) (h : Resource)
    → IsAccepted fails e h
    → find_resource e.resources fresh ≡ none
    → (find_agent_service (ensure_agent_service fails fresh e h).1 h
        ≡ (ensure_agent_service fails fresh e h).0)
      × ((again : Text)
          → ensure_agent_service fails again (ensure_agent_service fails fresh e h).1 h
            ≡ ensure_agent_service fails fresh e h)
ensure_agent_service-found fails fresh e h taken new =
    elim (Option-cases (find_agent_service e h)) [
      | inr (s, here) ↦
          subst
            (λ a.
              (find_agent_service a.1 h ≡ a.0)
              × ((again : Text) → ensure_agent_service fails again a.1 h ≡ a))
            (sym (ensure-old fails fresh e h s here))
            (here, λ again. ensure-old fails again e h s here)
      | inl absent ↦
          let found = extended-service fresh e h new absent in
          subst
            (λ a.
              (find_agent_service a.1 h ≡ a.0)
              × ((again : Text) → ensure_agent_service fails again a.1 h ≡ a))
            (sym (ensure-new fails fresh e h taken absent))
            (found, λ again. ensure-old fails again (extended fresh e h) h _ found)
    ]

-- Where the database takes it, an agent that is bound to the service made for a host runs on that
-- host.
pub host_for_agent-ensure_agent_service :
    (fails : Call → Bool) (fresh : Text) (e : Estate) (h : Resource)
    → IsAccepted fails e h
    → IsFresh e fresh
    → find_resource e.resources h.id ≡ some h
    → h.kind ≡ host_kind
    → find_agent_service e h ≡ none
    → (s : Resource) × ((ensure_agent_service fails fresh e h).0 ≡ some s)
      × (host_for_agent (ensure_agent_service fails fresh e h).1 s.id ≡ some h)
unfolding new_service
host_for_agent-ensure_agent_service fails fresh e h taken is_fresh known is_host absent =
    subst (λ a. (s : Resource) × (a.0 ≡ some s) × (host_for_agent a.1 s.id ≡ some h))
      (sym (ensure-new fails fresh e h taken absent))
      (new_service fresh h, refl, extended-host fresh e h is_fresh known is_host)
