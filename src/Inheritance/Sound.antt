-- ===== src/Inheritance/Sound.antt =====
-- Every level that nodejs/services/access_inheritance.js finds was granted above.
use theta_directory.Base.{
  ℕ, List, [], ◌∷◌, ◌≡◌, refl, subst, inl, inr, arith, ltb, Text, ◌==◌, eq_sound, dec_lt,
  All-weaken, All-self, if_cases, get, In, All, some, Bool-cases, In-append,
}
use theta_directory.Inheritance.{
  Edge, Level, Levels, rank_of, level_of, Walk, visit, visit_all, expand, walk, seed, child_index,
  nothing, push, run, fuel_for,
}
use theta_directory.Inheritance.Index.{targets, children_of-child_index, Below, here, step}
use theta_directory.Inheritance.Bound.{level_of-put, rank_at, visit_rises, visit_stays, walk_rule}

module _ (direct : Levels) (edges : List Edge) where
  -- The level is granted on the node itself or above it.
  pub record Granted (id : Text) (l : Level) : Type 0 where
    pub root : Text
    pub given : In (root, l) direct
    pub below : Below edges root id

  Granted-child : {id c : Text} {l : Level} → Granted id l → In c (targets edges id) → Granted c l
  Granted-child g h = record { root = g.root; given = g.given; below = step g.below h }

  pub record IsSound (w : Walk) : Type 0 where
    pub levels : (id : Text) (t : Text) → level_of w.effective id ≡ some t → Granted id (some t)
    pub queued : (id : Text) (l : Level) → In (id, l) w.queue → Granted id l

  push-IsSound : (w : Walk) (c : Text) (l : Level) → IsSound w → Granted c l → IsSound (push w c l)
  push-IsSound w c l h g = record {
    levels = λ id t e. elim (Bool-cases (c == id)) [
      | inl same ↦
          let held : l ≡ some t = ground (arith, level_of-put w.effective c id l) in
          subst (λ x. Granted x (some t)) (eq_sound c id same) (subst (Granted c) held g)
      | inr other ↦ h.levels id t (ground (arith, level_of-put w.effective c id l))
    ];
    queued = λ id k e. elim (In-append (id, k) w.queue ((c, l) ∷ []) e) [
      | inl old ↦ h.queued id k old
      | inr (inl new) ↦
          let is_c : c ≡ id = cc in
          let is_l : l ≡ k = cc in subst (λ x. Granted x k) is_c (subst (Granted c) is_l g)
      | inr (inr none_left) ↦ absurd none_left
    ];
  }

  visit-IsSound :
      (l : Level) (w : Walk) (c : Text) → IsSound w → Granted c l → IsSound (visit l w c)
  visit-IsSound l w c h g = elim (dec_lt (rank_at w.effective c) (rank_of l)) [
    | yes rises ↦ rw (visit_rises l w c rises) (push-IsSound w c l h g)
    | no stays ↦ rw (visit_stays l w c (omega arith)) h
  ]

  visit_all-IsSound :
      (l : Level) (w : Walk) (cs : List Text)
      → IsSound w
      → All (λ c. Granted c l) cs
      → IsSound (visit_all l w cs)
  unfolding visit_all
  visit_all-IsSound l w [] h g = h
  visit_all-IsSound l w (c ∷ cs) h (g, gs) =
      visit_all-IsSound l (visit l w c) cs (visit-IsSound l w c h g) gs

  children-Granted :
      (id : Text) (l : Level) (cs : List Text)
      → Granted id l
      → All (λ c. In c (targets edges id)) cs
      → All (λ c. Granted c l) cs
  children-Granted id l cs g h =
      All-weaken (λ c. In c (targets edges id)) (λ c. Granted c l) cs (λ c m. Granted-child g m) h

  expand-IsSound :
      (id : Text) (l : Level) (w : Walk)
      → IsSound w
      → Granted id l
      → IsSound (expand (child_index edges) id l w)
  unfolding expand
  expand-IsSound id l w h g =
      if_cases (λ r. IsSound r) (ltb (rank_of l) (rank_at w.effective id)) _ _ h
        (rw (children_of-child_index edges id) (
          visit_all-IsSound l w (targets edges id) h
            (children-Granted id l (targets edges id) g (All-self (targets edges id)))))

  walk-IsSound : (fuel : ℕ) (w : Walk) → IsSound w → IsSound (walk fuel (child_index edges) w)
  walk-IsSound = walk_rule (child_index edges) IsSound (λ w id l rest e h.
      expand-IsSound id l (record w { queue = rest })
        (record { levels = h.levels; queued = λ i k m. h.queued i k (rw e (inr m)) })
        (h.queued id l (rw e (inl refl))))

  seed-IsSound :
      (w : Walk) (d : Levels)
      → IsSound w
      → ((id : Text) (l : Level) → In (id, l) d → In (id, l) direct)
      → IsSound (seed w d)
  unfolding seed
  seed-IsSound w [] h f = h
  seed-IsSound w ((id, l) ∷ d) h f =
      seed-IsSound (push w id l) d
        (push-IsSound w id l h (record { root = id; given = f id l (inl refl); below = here }))
        (λ i k m. f i k (inr m))

  pub run-IsSound : IsSound (run direct edges)
  unfolding run level_of get
  run-IsSound = walk-IsSound (fuel_for direct edges) (seed nothing direct) (
      seed-IsSound nothing direct (record { levels = λ id t e. cc; queued = λ id l m. absurd m })
        (λ id l m. m))
