-- ===== src/Inheritance/Keep.antt =====
-- What one round of the walk of nodejs/services/access_inheritance.js keeps of every node.
use theta_directory.Base.{
  ℕ, ◌≤◌, List, [], ◌∷◌, ◌≡◌, refl, subst, ◌⊎◌, inl, inr, arith, Text, ◌==◌, eq_iff, eq_sound,
  dec_lt, put, In, All, Bool-cases, false, In-append_left, In-append_right, eq_refl,
}
use theta_directory.Inheritance.{Edge, Level, Levels, rank_of, Walk, visit, visit_all, push}
use theta_directory.Inheritance.Index.{targets}
use theta_directory.Inheritance.Bound.{level_of-put, rank_at, visit_rises, visit_stays}

-- No rank falls.
abbrev pub Grows : Levels → Levels → Type 0
Grows m n = (id : Text) → rank_at m id ≤ rank_at n id

pub Grows-put : (m : Levels) (c : Text) (l : Level) → rank_at m c ≤ rank_of l → Grows m (put m c l)
Grows-put m c l h id = ground (arith, level_of-put m c id l, eq_iff c id)

-- The node waits in the queue with the rank that it has.
abbrev pub Waits : Walk → Text → Type 0
Waits w p = (l : Level) × In (p, l) w.queue × (rank_at w.effective p ≤ rank_of l)

module _ (edges : List Edge) where
  -- The node's edges have passed its rank on.
  abbrev pub IsPassed : Walk → Text → Type 0
  IsPassed w p = (c : Text) → In c (targets edges p) → rank_at w.effective p ≤ rank_at w.effective c

  -- What a part of a round keeps of every node.
  pub record Keeps (w w' : Walk) : Type 0 where
    pub grows : Grows w.effective w'.effective
    pub closed : (p : Text) → Waits w p ⊎ IsPassed w p → Waits w' p ⊎ IsPassed w' p
    pub low :
        (p : Text) (k : ℕ)
        → Waits w p ⊎ (rank_at w.effective p ≤ k)
        → Waits w' p ⊎ (rank_at w'.effective p ≤ k)

  Keeps-refl : (w : Walk) → Keeps w w
  Keeps-refl w = record { grows = λ id. omega arith; closed = λ p h. h; low = λ p k h. h }

  Keeps-trans : (u v w : Walk) → Keeps u v → Keeps v w → Keeps u w
  Keeps-trans u v w f g = record {
    grows = λ id. omega (arith, f.grows id, g.grows id);
    closed = λ p h. g.closed p (f.closed p h);
    low = λ p k h. g.low p k (f.low p k h);
  }

  module _ (w : Walk) (c : Text) (l : Level) (up : rank_at w.effective c ≤ rank_of l) where
    push-Waits_self : Waits (push w c l) c
    push-Waits_self = (
      l,
      In-append_right (c, l) w.queue ((c, l) ∷ []) (inl refl),
      ground (arith, level_of-put w.effective c c l, eq_refl c),
    )

    rank_at-push_ne :
        (p : Text) → (c == p) ≡ false → rank_at (push w c l).effective p ≡ rank_at w.effective p
    rank_at-push_ne p h = ground (arith, level_of-put w.effective c p l)

    push-Waits : (p : Text) → (c == p) ≡ false → Waits w p → Waits (push w c l) p
    push-Waits p h (k, m, le) =
        (k, In-append_left (p, k) w.queue ((c, l) ∷ []) m, omega (arith, rank_at-push_ne p h))

    pub push-Keeps : Keeps w (push w c l)
    push-Keeps = record {
      grows = Grows-put w.effective c l up;
      closed = λ p h. elim (Bool-cases (c == p)) [
        | inl same ↦ inl (subst (Waits (push w c l)) (eq_sound c p same) push-Waits_self)
        | inr other ↦ elim h [
          | inl waits ↦ inl (push-Waits p other waits)
          | inr passed ↦ inr (λ d m.
              omega (arith, passed d m, rank_at-push_ne p other, Grows-put w.effective c l up d))
        ]
      ];
      low = λ p k h. elim (Bool-cases (c == p)) [
        | inl same ↦ inl (subst (Waits (push w c l)) (eq_sound c p same) push-Waits_self)
        | inr other ↦ elim h [
          | inl waits ↦ inl (push-Waits p other waits)
          | inr le ↦ inr (omega (arith, rank_at-push_ne p other))
        ]
      ];
    }

  visit-Keeps :
      (l : Level) (w : Walk) (c : Text)
      → Keeps w (visit l w c) × (rank_of l ≤ rank_at (visit l w c).effective c)
  visit-Keeps l w c = elim (dec_lt (rank_at w.effective c) (rank_of l)) [
    | yes rises ↦
        rw (visit_rises l w c rises) (
          push-Keeps w c l (omega arith),
          ground (arith, level_of-put w.effective c c l, eq_refl c),
        )
    | no stays ↦ rw (visit_stays l w c (omega arith)) (Keeps-refl w, omega arith)
  ]

  pub visit_all-Keeps :
      (l : Level) (w : Walk) (cs : List Text)
      → Keeps w (visit_all l w cs)
        × All (λ c. rank_of l ≤ rank_at (visit_all l w cs).effective c) cs
  unfolding visit_all
  visit_all-Keeps l w [] = (Keeps-refl w, tt)
  visit_all-Keeps l w (c ∷ cs) =
      let (first, reached) = visit-Keeps l w c in
      let (later, others) = visit_all-Keeps l (visit l w c) cs in
      (
        Keeps-trans w (visit l w c) (visit_all l (visit l w c) cs) first later,
        (omega (arith, reached, later.grows c), others),
      )

  abbrev pub IsClosed : Walk → Type 0
  IsClosed w = (p : Text) → Waits w p ⊎ IsPassed w p

  -- What is left of a node's wait when the head has left the queue.
  pub Waits-rest :
      (w : Walk) (id p : Text) (l : Level) (rest : Levels)
      → w.queue ≡ (id, l) ∷ rest
      → Waits w p
      → Waits (record w { queue = rest }) p ⊎ ((p ≡ id) × (rank_at w.effective p ≤ rank_of l))
  Waits-rest w id p l rest e (k, m, le) = elim (subst (In (p, k)) e m) [
    | inl head ↦
        inr (cc, let same : k ≡ l = cc in subst (λ x. rank_at w.effective p ≤ rank_of x) same le)
    | inr tail ↦ inl (k, tail, le)
  ]
