-- ===== src/Agents/Services/Kept.antt =====
-- What the pruning of nodejs/utils/agent_manager.js may take away.
use theta_directory.Base.{
  true, false, not, List, [], ◌∷◌, map, filter, if◌then◌else◌, Text, ◌==◌, eq_iff, eq_refl, In,
  filter-In, In-filter, ◌≡◌, ◌≢◌, refl, sym, ap, ◌∙◌, ◌⊎◌, inl, inr, arith, Bool-cases, subst,
}
use theta_directory.Catalog.{Resource}
use theta_directory.Agents.Binding.{Estate, is_agent_service}
use theta_directory.Agents.Services.{
  is_mine, is_reported, other_sources, is_nobody, released, release, remove, prune_one, prune_all,
  prune_services,
}

In-map_same : {A : Type 0} (f : A → A) (xs : List A) (x y : A) → In x xs → f x ≡ y → In y (map f xs)
In-map_same f (z ∷ xs) x y (inl here) h = inl (sym h ∙ ap f here)
In-map_same f (z ∷ xs) x y (inr deep) h = inr (In-map_same f xs x y deep h)
In-map_same f [] x y none_left h = absurd none_left

-- What became of a row: it is as it was; it lost the agent, while another source knows it; or it is
-- gone, and only the agent knew it and does not report it any more.
abbrev pub IsAccounted : List Text → Resource → Estate → Type 0
IsAccounted reported r e =
    In r e.resources
    ⊎ ((In (released r) e.resources
          × (is_nobody (other_sources r) ≡ false)
          × (is_reported reported r ≡ false))
        ⊎ ((is_nobody (other_sources r) ≡ true) × (is_reported reported r ≡ false)))

module _ (reported : List Text) (r : Resource) where
  -- Rows of another id are left alone.
  prune_one-other :
      (s x : Resource) (e : Estate)
      → x.id ≢ s.id
      → In x e.resources
      → In x (prune_one reported s e).resources
  unfolding prune_one remove release
  prune_one-other s x e apart here =
      let differs : (x.id == s.id) ≡ false = ground (arith, apart, eq_iff x.id s.id) in
      elim (Bool-cases (is_reported reported s)) [
        | inl seen ↦ rw (seen, prune_one) here
        | inr unseen ↦ elim (Bool-cases (is_nobody (other_sources s))) [
          | inl only ↦
              rw (unseen, only, prune_one)
                (In-filter (λ q. not (q.id == s.id)) e.resources x here (rw differs refl))
          | inr others ↦
              let changed : Resource = record x { metadata = (released s).metadata } in
              rw (unseen, others, prune_one)
                (In-map_same _ e.resources x x here
                  (subst (λ b. (if b then changed else x) ≡ x) (sym differs) refl))
        ]
      ]

  -- The row itself, whatever became of it before.
  prune_one_self :
      (e : Estate) → IsAccounted reported r e → IsAccounted reported r (prune_one reported r e)
  unfolding prune_one release
  prune_one_self e h = elim (Bool-cases (is_reported reported r)) [
    | inl seen ↦
        let stays : prune_one reported r e ≡ e = rw (seen, prune_one) refl in
        subst (IsAccounted reported r) (sym stays) h
    | inr unseen ↦ elim (Bool-cases (is_nobody (other_sources r))) [
      | inl only ↦ inr (inr (only, unseen))
      | inr others ↦ elim h [
        | inl here ↦ inr (
            inl (
              rw (unseen, others, prune_one)
                  (In-map_same _ e.resources r (released r) here (
                    subst (λ b. (if b then released r else r) ≡ released r) (sym (eq_refl r.id))
                      refl)),
              others,
              unseen,
            ))
        | inr rest ↦ elim rest [
          | inl lost ↦ inr (
              inl (
                rw (unseen, others, prune_one)
                    (In-map_same _ e.resources (released r) (released r) lost.0 (
                      subst (λ b. (if b then released r else released r) ≡ released r)
                        (sym (eq_refl r.id)) refl)),
                others,
                unseen,
              ))
          | inr gone ↦ inr (inr gone)
        ]
      ]
    ]
  ]

  prune_one-IsAccounted :
      (s : Resource) (e : Estate)
      → (s.id ≡ r.id → s ≡ r)
      → IsAccounted reported r e
      → IsAccounted reported r (prune_one reported s e)
  prune_one-IsAccounted s e one h = elim (Bool-cases (s.id == r.id)) [
    | inl hit ↦
        subst (λ x. IsAccounted reported r (prune_one reported x e))
          (sym (one ((eq_iff s.id r.id).0 hit))) (prune_one_self e h)
    | inr miss ↦
        let apart : r.id ≢ s.id =
          λ same. absurd (ground (arith, miss, (eq_iff s.id r.id).1 (sym same))) in
        elim h [
          | inl here ↦ inl (prune_one-other s r e apart here)
          | inr rest ↦ elim rest [
            | inl lost ↦ inr (inl (prune_one-other s (released r) e apart lost.0, lost.1, lost.2))
            | inr gone ↦ inr (inr gone)
          ]
        ]
  ]

  prune_all-IsAccounted :
      (rs : List Resource) (e : Estate)
      → ((s : Resource) → In s rs → s.id ≡ r.id → s ≡ r)
      → IsAccounted reported r e
      → IsAccounted reported r (prune_all reported rs e)
  unfolding prune_all
  prune_all-IsAccounted [] e one h = h
  prune_all-IsAccounted (s ∷ rs) e one h =
      prune_all-IsAccounted rs (prune_one reported s e) (λ q deep. one q (inr deep))
        (prune_one-IsAccounted s e (one s (inl refl)) h)

  prune_all-other :
      (rs : List Resource) (e : Estate)
      → ((s : Resource) → In s rs → r.id ≢ s.id)
      → In r e.resources
      → In r (prune_all reported rs e).resources
  unfolding prune_all
  prune_all-other [] e apart here = here
  prune_all-other (s ∷ rs) e apart here =
      prune_all-other rs (prune_one reported s e) (λ q deep. apart q (inr deep))
        (prune_one-other s r e (apart s (inl refl)) here)

own_foreign :
    (host_id : Text) (child_ids : List Text) (r : Resource)
    → is_agent_service r ≡ true
    → is_mine host_id child_ids r ≡ false
unfolding is_mine
own_foreign host_id child_ids r own = ground (arith, own)

-- Where the services list no other row under its id, a row is as it was; or it lost the agent as a
-- source, while another source knows it; or it is gone, and only the agent knew it and does not
-- report it any more. The agent's own service, and whatever the agent did not find below the host,
-- is as it was.
pub prune_services-IsAccounted :
    (host_id : Text) (child_ids reported : List Text) (services : List Resource) (e : Estate)
    (r : Resource)
    → In r e.resources
    → ((s : Resource) → In s services → s.id ≡ r.id → s ≡ r)
    → IsAccounted reported r (prune_services host_id child_ids reported services e)
      × (is_mine host_id child_ids r ≡ false
          → In r (prune_services host_id child_ids reported services e).resources)
      × (is_agent_service r ≡ true
          → In r (prune_services host_id child_ids reported services e).resources)
unfolding prune_services
prune_services-IsAccounted host_id child_ids reported services e r here one =
    let mine : List Resource = filter (is_mine host_id child_ids) services in
    let from : (s : Resource) → In s mine → In s services × (is_mine host_id child_ids s ≡ true) =
      filter-In (is_mine host_id child_ids) services in
    let kept : is_mine host_id child_ids r ≡ false → In r (prune_all reported mine e).resources =
      λ foreign.
        prune_all-other reported r mine e
          (λ s listed same.
            let was = from s listed in
            absurd (
              ground (
                arith,
                foreign,
                subst (λ x. is_mine host_id child_ids x ≡ true) (one s was.0 (sym same)) was.1,
              )))
          here in
    (
      prune_all-IsAccounted reported r mine e (λ s listed. one s (from s listed).0) (inl here),
      kept,
      λ own. kept (own_foreign host_id child_ids r own),
    )
