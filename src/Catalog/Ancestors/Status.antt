-- ===== src/Catalog/Ancestors/Status.antt =====
-- The status that the catalog shows, in nodejs/models/resource.js.
use theta_directory.Base.{
  Bool, true, false, not, ◌&&◌, List, [], ◌∷◌, find, none, some, if◌then◌else◌, if_elim, Text,
  codes, ◌==◌, includes, or_text, In, All, All-In, find-In, ◌≡◌, refl, ◌⊎◌, inl, inr, arith,
  Bool-cases, Option-cases, subst, sym, none≢some,
}
use theta_directory.Inheritance.{Edge}
use theta_directory.Catalog.{Resource}
use theta_directory.Catalog.Ancestors.{
  Via, own_state, no_state, ancestor, CatalogStatus, known, negative, is_trouble, ancestry, blame,
  catalog_status,
}
use theta_directory.Catalog.Ancestors.Chain.{row, carries, Upward, IsAncestor, ancestry_sound}
use theta_directory.Catalog.Ancestors.Reached.{ancestry_complete}

find-none :
    (p : Resource → Bool) (xs : List Resource) (x : Resource)
    → find p xs ≡ none
    → In x xs
    → p x ≡ false
find-none p [] x h none_left = absurd none_left
find-none p (y ∷ ys) x h here = elim (Bool-cases (p y)) [
  | inl hit ↦ absurd (none≢some (sym (rw (hit, find) at h)))
  | inr miss ↦ elim here [
    | inl same ↦ subst (λ z. p z ≡ false) (sym same) miss
    | inr below ↦ find-none p ys x (rw (miss, find) at h) below
  ]
]

module _ (all : List Resource) (edges : List Edge) where
  -- Nothing above has a status that is known.
  abbrev pub IsUnknown : Resource → Type 0
  IsUnknown r =
      (pid : Text) (p : Resource)
      → Upward all edges r.id pid
      → row all edges pid ≡ some p
      → carries all edges p ≡ true
      → (pid ≡ r.id) ⊎ (known p.metadata.status ≡ false)

  -- A host or a site above `r` has the state, and no other is named.
  abbrev pub IsInherited : Resource → CatalogStatus → Type 0
  IsInherited r s =
      (p : Resource) × IsAncestor all edges r.id p
      × (known p.metadata.status ≡ true)
      × (s.state ≡ p.metadata.status)
      × ((s.from ≡ []) ⊎ (s.from ≡ or_text p.name p.slug))

  abbrev pub IsHonest : Resource → CatalogStatus → Via → Type 0
  IsHonest r s own_state = (known r.metadata.status ≡ true) × (s.state ≡ r.metadata.status)
  IsHonest r s no_state =
      (known r.metadata.status ≡ false) × (s.state ≡ codes "unknown") × IsUnknown r
  IsHonest r s ancestor = (known r.metadata.status ≡ false) × IsInherited r s

  abbrev IsGood : Text → Resource → Type 0
  IsGood id p = IsAncestor all edges id p × (known p.metadata.status ≡ true)

  blame-IsGood :
      (id : Text) (nearest culprit : Resource) (ps : List Resource)
      → IsGood id culprit
      → All (IsAncestor all edges id) ps
      → IsGood id (blame all edges nearest culprit ps)
  unfolding blame is_trouble
  blame-IsGood id nearest culprit [] good above = good
  blame-IsGood id nearest culprit (p ∷ ps) good (here, above) =
      blame-IsGood id nearest (if not (p.id == nearest.id) && is_trouble p then p else culprit) ps
        (if_elim (IsGood id) (not (p.id == nearest.id) && is_trouble p) p culprit
          (λ worse. (here, ground (arith, worse))) (λ other. good))
        above

  IsUnknown-above :
      (r : Resource)
      → find (λ p. known p.metadata.status) (ancestry all edges r.id) ≡ none
      → IsUnknown r
  IsUnknown-above r nobody pid p up found holds =
      elim (ancestry_complete all edges r.id pid p up found holds) [
        | inl same ↦ inl same
        | inr here ↦
            inr (find-none (λ q. known q.metadata.status) (ancestry all edges r.id) p nobody here)
      ]

  culprit-IsGood :
      (r nearest : Resource)
      → find (λ p. known p.metadata.status) (ancestry all edges r.id) ≡ some nearest
      → IsGood r.id (
          if includes negative nearest.metadata.status
          then blame all edges nearest nearest (ancestry all edges r.id)
          else nearest)
  culprit-IsGood r nearest found =
      let hit = find-In (λ p. known p.metadata.status) (ancestry all edges r.id) nearest found in
      let above = ancestry_sound all edges r.id in
      let good : IsGood r.id nearest =
        (All-In (IsAncestor all edges r.id) (ancestry all edges r.id) nearest above hit.0, hit.1) in
      if_elim (IsGood r.id) (includes negative nearest.metadata.status) _ nearest
        (λ bad. blame-IsGood r.id nearest nearest (ancestry all edges r.id) good above)
        (λ fine. good)

  abbrev from_culprit : Bool → Resource → Resource → CatalogStatus
  from_culprit name_culprit r culprit = record {
    state = culprit.metadata.status;
    from =
        if name_culprit && not (culprit.id == r.id) then or_text culprit.name culprit.slug else [];
    via = ancestor;
  }

  named :
      (name_culprit : Bool) (r culprit : Resource)
      → known r.metadata.status ≡ false
      → IsGood r.id culprit
      → IsHonest r (from_culprit name_culprit r culprit) ancestor
        × (name_culprit ≡ false → (from_culprit name_culprit r culprit).from ≡ [])
  named name_culprit r culprit unknown (above, is_known) = (
    (
      unknown,
      (
        culprit,
        above,
        is_known,
        refl,
        if_elim (λ t. (t ≡ []) ⊎ (t ≡ or_text culprit.name culprit.slug))
            (name_culprit && not (culprit.id == r.id)) _ _ (λ named_it. inr refl)
            (λ silent. inl refl),
      ),
    ),
    λ h. rw h refl,
  )

  -- The state in the catalog is the resource's own if that is known; else that of a host or a site
  -- above it, which is the only one that is named; and unknown only if nothing above has a state.
  -- Without leave to name the culprit, no name is given.
  pub catalog_status-IsHonest :
      (name_culprit : Bool) (r : Resource)
      → IsHonest r
          (catalog_status all edges name_culprit r)
          (catalog_status all edges name_culprit r).via
        × (name_culprit ≡ false → (catalog_status all edges name_culprit r).from ≡ [])
  unfolding catalog_status
  catalog_status-IsHonest name_culprit r = elim (Bool-cases (known r.metadata.status)) [
    | inl own ↦ rw (own, catalog_status) ((own, refl), λ h. refl)
    | inr unknown ↦
        elim (Option-cases (find (λ p. known p.metadata.status) (ancestry all edges r.id))) [
          | inl nobody ↦
              rw (unknown, nobody, catalog_status)
                (
                  (
                    unknown,
                    refl,
                    λ pid p up found holds. IsUnknown-above r nobody pid p up found holds,
                  ),
                  λ h. refl,
                )
          | inr (nearest, found) ↦
              rw (unknown, found, catalog_status)
                (named name_culprit r
                  (if includes negative nearest.metadata.status
                    then blame all edges nearest nearest (ancestry all edges r.id)
                    else nearest)
                  unknown (culprit-IsGood r nearest found))
        ]
  ]
