-- ===== src/Catalog/Ancestors/Chain.antt =====
-- The search for the ancestors that can carry a status, in nodejs/models/resource.js.
use theta_directory.Base.{
  ℕ, zero, suc, Bool, true, ◌||◌, List, [], ◌∷◌, ◌++◌, Option, some, length, Text, ◌==◌, includes,
  get, In, All, ◌≡◌, inl, inr, Bool-cases, Option-cases, List-cases, subst, All-self, All-append,
  All-weaken, if_elim,
}
use theta_directory.Inheritance.{Edge}
use theta_directory.Catalog.{Resource, host_kind, site_kind}
use theta_directory.Catalog.Projection.{by_id_from}
use theta_directory.Catalog.Ancestors.{parents_of, Ring, look_at, look_at_all, rings, ancestry}

module _ (all : List Resource) (edges : List Edge) where
  abbrev pub row : Text → Option Resource
  row id = get (by_id_from [] all) id

  abbrev pub carries : Resource → Bool
  carries p = p.kind == host_kind || p.kind == site_kind

  -- The edges lead up from `id`, over rows that exist.
  pub data Upward (id : Text) : Text → Type 0 where
    parent : {p : Text} → In p (parents_of edges id) → Upward id p
    over :
        {p : Text} (q : Text) (s : Resource)
        → Upward id q
        → row q ≡ some s
        → In p (parents_of edges q)
        → Upward id p

  -- A host or a site above `id`.
  abbrev pub IsAncestor : Text → Resource → Type 0
  IsAncestor id p = (pid : Text) × Upward id pid × (row pid ≡ some p) × (carries p ≡ true)

  abbrev IsRooted : Text → Ring → Type 0
  IsRooted id ring = All (IsAncestor id) ring.out × All (Upward id) ring.next

  above-All :
      (id pid : Text) (s : Resource)
      → Upward id pid
      → row pid ≡ some s
      → (ps : List Text) → All (λ p. In p (parents_of edges pid)) ps
      → All (Upward id) ps
  above-All id pid s up found [] below = tt
  above-All id pid s up found (p ∷ ps) (here, below) =
      (over pid s up found here, above-All id pid s up found ps below)

  look_at-IsRooted :
      (id : Text) (ring : Ring) (pid : Text)
      → Upward id pid
      → IsRooted id ring
      → IsRooted id (look_at all edges ring pid)
  unfolding look_at
  look_at-IsRooted id ring pid up (out, next) = elim (Bool-cases (includes ring.seen pid)) [
    | inl seen ↦ rw (seen, look_at) (out, next)
    | inr fresh ↦ elim (Option-cases (row pid)) [
      | inl missing ↦ rw (fresh, missing, look_at) (out, next)
      | inr (p, found) ↦
          rw (fresh, found, look_at)
            (
              if_elim (All (IsAncestor id)) (carries p) (ring.out ++ p ∷ []) ring.out
                  (λ holds.
                    All-append (IsAncestor id) ring.out (p ∷ []) out ((pid, up, found, holds), tt))
                  (λ fails. out),
              All-append (Upward id) ring.next (parents_of edges pid) next (
                  above-All id pid p up found (parents_of edges pid)
                    (All-self (parents_of edges pid))),
            )
    ]
  ]

  look_at_all-IsRooted :
      (id : Text) (ring : Ring) (pids : List Text)
      → All (Upward id) pids
      → IsRooted id ring
      → IsRooted id (look_at_all all edges ring pids)
  unfolding look_at_all
  look_at_all-IsRooted id ring [] up h = h
  look_at_all-IsRooted id ring (pid ∷ pids) (up, ups) h =
      look_at_all-IsRooted id (look_at all edges ring pid) pids ups
        (look_at-IsRooted id ring pid up h)

  rings-IsRooted :
      (fuel : ℕ) (id : Text) (ring : Ring)
      → IsRooted id ring
      → All (IsAncestor id) (rings all edges fuel ring)
  unfolding rings
  rings-IsRooted zero id ring (out, next) = out
  rings-IsRooted (suc fuel) id ring (out, next) = elim (List-cases ring.next) [
    | inl done ↦ rw (done, rings) out
    | inr (pid, pids, more) ↦
        rw (more, rings)
          (rings-IsRooted fuel id _ (
            look_at_all-IsRooted id (record ring { next = [] }) (pid ∷ pids)
              (subst (All (Upward id)) more next) (out, tt)))
  ]

  -- What the search finds stands above.
  pub ancestry_sound : (id : Text) → All (IsAncestor id) (ancestry all edges id)
  unfolding ancestry
  ancestry_sound id =
      rings-IsRooted (suc (suc (length all))) id
        (record { seen = id ∷ []; out = []; next = parents_of edges id })
        (
          tt,
          All-weaken _ _ (parents_of edges id) (λ p here. parent here)
              (All-self (parents_of edges id)),
        )
