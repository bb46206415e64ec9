-- ===== src/Inheritance/Complete.antt =====
-- A grant reaches everything below it in nodejs/services/access_inheritance.js.
use theta_directory.Base.{
  ℕ, ◌≤◌, List, [], ◌∷◌, ◌≡◌, refl, sym, subst, ◌⊎◌, inl, inr, arith, ltb, Text, eq_iff, In, All-In,
  Bool-cases, true, false, ltb→lt, get, has, has-put, get-has, Distinct, eq_refl,
}
use theta_directory.Inheritance.{
  Edge, Level, Levels, rank_of, level_of, Walk, visit_all, expand, walk, seed, children_of,
  child_index, nothing, push, run, fuel_for,
}
use theta_directory.Inheritance.Index.{targets, children_of-child_index, Below, here, step}
use theta_directory.Inheritance.Bound.{level_of-put, rank_at, walk_rule, run_ends}
use theta_directory.Inheritance.Keep.{
  Grows, Waits, IsPassed, IsClosed, push-Keeps, visit_all-Keeps, Waits-rest,
}

rank_fresh : (m : Levels) (id : Text) (l : Level) → has m id ≡ false → rank_at m id ≤ rank_of l
unfolding level_of rank_of
rank_fresh m id l h = rw (get-has m id h) (omega arith)

has_head : (id : Text) (l : Level) (d : Levels) → has ((id, l) ∷ d) id ≡ true
unfolding has
has_head id l d = rw (eq_refl id)

has_tail : (id k : Text) (l : Level) (d : Levels) → has d k ≡ true → has ((id, l) ∷ d) k ≡ true
unfolding has
has_tail id k l d h = ground arith

module _ (edges : List Edge) where
  -- After the children of `id` are visited, every node waits or has passed its rank on.
  module _ (id : Text) (l : Level) (w : Walk) (le : rank_at w.effective id ≤ rank_of l) where
    visit_children-IsClosed :
        ((p : Text) → Waits w p ⊎ IsPassed edges w p ⊎ (p ≡ id))
        → IsClosed edges (visit_all l w (targets edges id))
    visit_children-IsClosed h p =
        let (keeps, reached) = visit_all-Keeps edges l w (targets edges id) in
        let own : Waits (visit_all l w (targets edges id)) id
            ⊎ IsPassed edges (visit_all l w (targets edges id)) id =
          elim (keeps.low id (rank_of l) (inr le)) [
            | inl waits ↦ inl waits
            | inr low ↦ inr (λ c m. omega (
              arith,
              All-In (λ c. rank_of l ≤ rank_at (visit_all l w (targets edges id)).effective c) _ c
                  reached m,
            ))
          ] in
        elim (h p) [
          | inl waits ↦ keeps.closed p (inl waits)
          | inr (inl passed) ↦ keeps.closed p (inr passed)
          | inr (inr e) ↦
              subst
                (λ q.
                  Waits (visit_all l w (targets edges id)) q
                  ⊎ IsPassed edges (visit_all l w (targets edges id)) q)
                (sym e) own
        ]

  expand-IsClosed :
      (w : Walk) (id : Text) (l : Level) (rest : Levels)
      → w.queue ≡ (id, l) ∷ rest
      → IsClosed edges w
      → IsClosed edges (expand (child_index edges) id l (record w { queue = rest }))
  unfolding expand
  expand-IsClosed w id l rest e h = elim (Bool-cases (ltb (rank_of l) (rank_at w.effective id))) [
    | inl stale ↦ rw stale (λ p. elim (h p) [
      | inl waits ↦ elim (Waits-rest edges w id p l rest e waits) [
        | inl still ↦ inl still
        | inr (same, le) ↦
            let high = ltb→lt _ _ stale in
            absurd (omega (arith, subst (λ q. rank_at w.effective q ≤ rank_of l) same le))
      ]
      | inr passed ↦ inr passed
    ])
    | inr fresh ↦
        rw (fresh, children_of-child_index edges id)
          (visit_children-IsClosed id l (record w { queue = rest }) (ground (arith, fresh))
            (λ p. elim (h p) [
              | inl waits ↦ elim (Waits-rest edges w id p l rest e waits) [
                | inl still ↦ inl still
                | inr (same, le) ↦ inr (inr same)
              ]
              | inr passed ↦ inr (inl passed)
            ]))
  ]

  expand-Grows :
      (w : Walk) (id : Text) (l : Level) (rest : Levels)
      → Grows w.effective (expand (child_index edges) id l (record w { queue = rest })).effective
  unfolding expand
  expand-Grows w id l rest = elim (Bool-cases (ltb (rank_of l) (rank_at w.effective id))) [
    | inl stale ↦ rw stale (λ p. omega arith)
    | inr fresh ↦
        rw fresh
          (visit_all-Keeps edges l (record w { queue = rest })
            (children_of (child_index edges) id)).0.grows
  ]

  walk-IsClosed :
      (fuel : ℕ) (w : Walk) → IsClosed edges w → IsClosed edges (walk fuel (child_index edges) w)
  walk-IsClosed = walk_rule (child_index edges) (IsClosed edges) expand-IsClosed

  walk-Grows :
      (m : Levels) (fuel : ℕ) (w : Walk)
      → Grows m w.effective
      → Grows m (walk fuel (child_index edges) w).effective
  walk-Grows m =
      walk_rule (child_index edges) (λ w. Grows m w.effective)
        (λ w id l rest e h p. omega (arith, h p, expand-Grows w id l rest p))

  -- What the seeding gives, if the keys of the grants are new and differ.
  record IsSeeded (w : Walk) (d : Levels) (w' : Walk) : Type 0 where
    closed : IsClosed edges w'
    grows : Grows w.effective w'.effective
    given : (id : Text) (l : Level) → In (id, l) d → rank_of l ≤ rank_at w'.effective id

  seed-IsSeeded :
      (w : Walk) (d : Levels)
      → Distinct d
      → ((k : Text) → has d k ≡ true → has w.effective k ≡ false)
      → IsClosed edges w
      → IsSeeded w d (seed w d)
  unfolding seed
  seed-IsSeeded w [] h new c = record {
    closed = c;
    grows = λ p. omega arith;
    given = λ id l m. absurd m;
  }
  seed-IsSeeded w ((id, l) ∷ d) (fresh, h) new c =
      let own : rank_at w.effective id ≤ rank_of l =
        rank_fresh w.effective id l (new id (has_head id l d)) in
      let keeps = push-Keeps edges w id l own in
      let rest =
        seed-IsSeeded (push w id l) d h
          (λ k m.
            ground (arith, has-put w.effective id k l, eq_iff id k, new k (has_tail id k l d m)))
          (λ p. keeps.closed p (c p)) in
      record {
        closed = rest.closed;
        grows = λ p. omega (arith, keeps.grows p, rest.grows p);
        given = λ i k m. elim m [
          | inl e ↦
              let is_id : i ≡ id = cc in
              let is_l : k ≡ l = cc in
              ground (arith, rest.grows id, level_of-put w.effective id id l, eq_refl id)
          | inr tail ↦ rest.given i k tail
        ];
      }

  nothing-IsClosed : IsClosed edges nothing
  unfolding level_of get
  nothing-IsClosed p = inr (λ c m. omega arith)

  run-IsSeeded : (direct : Levels) → Distinct direct → IsSeeded nothing direct (seed nothing direct)
  unfolding has
  run-IsSeeded direct h = seed-IsSeeded nothing direct h (λ k m. refl) nothing-IsClosed

  run-IsClosed : (direct : Levels) → Distinct direct → IsClosed edges (run direct edges)
  unfolding run
  run-IsClosed direct h =
      walk-IsClosed (fuel_for direct edges) (seed nothing direct) (run-IsSeeded direct h).closed

  run-IsPassed :
      (direct : Levels) → Distinct direct → (p : Text) → IsPassed edges (run direct edges) p
  run-IsPassed direct h p = elim (run-IsClosed direct h p) [
    | inl (l, m, le) ↦ absurd (subst (In (p, l)) (run_ends direct edges) m)
    | inr passed ↦ passed
  ]

  -- No rank is lost on the way down.
  pub run_complete :
      (direct : Levels) (root id : Text) (l : Level)
      → Distinct direct
      → In (root, l) direct
      → Below edges root id
      → rank_of l ≤ rank_at (run direct edges).effective id
  unfolding run
  run_complete direct root _ l h g here =
      let s = run-IsSeeded direct h in
      let r =
        walk-Grows (seed nothing direct).effective (fuel_for direct edges) (seed nothing direct)
          (λ p. omega arith) in
      omega (arith, s.given root l g, r root)
  run_complete direct root id l h g (step {p = p} b m) =
      omega (arith, run_complete direct root p l h g b, run-IsPassed direct h p id m)
