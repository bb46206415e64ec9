-- ===== src/Inheritance/Bound.antt =====
-- The walk of nodejs/services/access_inheritance.js empties its queue, on any graph.
use theta_directory.Base.{
  ℕ, zero, suc, ◌+◌, ◌-◌, ◌*◌, ◌≤◌, ◌<◌, ◌||◌, List, [], ◌∷◌, ◌≡◌, refl, sym, subst, inl, inr,
  arith, if◌then◌else◌, Text, ◌==◌, eq_iff, is_empty, put, get-put, In, All, All-if, All-weaken,
  List-cases, nil_of_length, length, length-append, some, none,
}
use theta_directory.Inheritance.{
  Edge, Level, Levels, rank_text, rank_of, strongest, level_of, Walk, visit, visit_all, expand,
  walk, seed, children_of, child_index, nothing, push, run, fuel_for,
}
use theta_directory.Inheritance.Index.{targets, children_of-child_index}

pub rank_le : (l : Level) → rank_of l ≤ 4
unfolding rank_of rank_text
rank_le none = omega arith
rank_le (some t) = ground arith

-- The rank that a node has.
abbrev pub rank_at : Levels → Text → ℕ
rank_at m id = rank_of (level_of m id)

pub level_of-put :
    (m : Levels) (k j : Text) (l : Level)
    → level_of (put m k l) j ≡ (if k == j then l else level_of m j)
unfolding level_of
level_of-put m k j l = ground (arith, get-put m k j l)

-- What `visit` does, by the two ranks.
pub visit_rises :
    (l : Level) (w : Walk) (c : Text) → rank_at w.effective c < rank_of l → visit l w c ≡ push w c l
unfolding visit strongest
visit_rises l w c h = ground arith

pub visit_stays :
    (l : Level) (w : Walk) (c : Text) → rank_of l ≤ rank_at w.effective c → visit l w c ≡ w
unfolding visit strongest
visit_stays l w c h = ground arith

module _ (index : List (Text × List Text)) where
  walk_nil : (fuel : ℕ) (w : Walk) → w.queue ≡ [] → walk (suc fuel) index w ≡ w
  unfolding walk
  walk_nil fuel w e = ground (arith, e)

  walk_cons :
      (fuel : ℕ) (w : Walk) (id : Text) (l : Level) (rest : Levels)
      → w.queue ≡ (id, l) ∷ rest
      → walk (suc fuel) index w ≡ walk fuel index (expand index id l (record w { queue = rest }))
  unfolding walk
  walk_cons fuel w id l rest e = ground (arith, e)

  -- What each round keeps holds at the end.
  pub walk_rule {κ} :
      (P : Walk → Type κ)
      → ((w : Walk) (id : Text) (l : Level) (rest : Levels)
          → w.queue ≡ (id, l) ∷ rest
          → P w
          → P (expand index id l (record w { queue = rest })))
      → (fuel : ℕ) (w : Walk) → P w
      → P (walk fuel index w)
  unfolding walk
  walk_rule P keep zero w h = h
  walk_rule P keep (suc fuel) w h = elim (List-cases w.queue) [
    | inl e ↦ subst P (sym (walk_nil fuel w e)) h
    | inr ((id, l), rest, e) ↦ subst P (sym (walk_cons fuel w id l rest e)) (
        walk_rule P keep fuel (expand index id l (record w { queue = rest }))
          (keep w id l rest e h))
  ]

-- How often the children of the edges can still rise.
room : List Edge → Levels → ℕ
room [] m = 0
room (e ∷ es) m = (4 - rank_at m e.child_id) + room es m

abbrev child_ids : List Edge → List Text
child_ids [] = []
child_ids (e ∷ es) = e.child_id ∷ child_ids es

module _ (m : Levels) (c : Text) (l : Level) where
  room-put_le : (es : List Edge) → rank_at m c ≤ rank_of l → room es (put m c l) ≤ room es m
  unfolding room
  room-put_le [] h = omega arith
  room-put_le (e ∷ es) h =
      ground (arith, room-put_le es h, level_of-put m c e.child_id l, eq_iff c e.child_id)

  room-put_lt :
      (es : List Edge)
      → In c (child_ids es)
      → rank_at m c < rank_of l
      → room es (put m c l) < room es m
  unfolding room
  room-put_lt [] p h = absurd p
  room-put_lt (e ∷ es) (inl p) h = ground (
    arith,
    room-put_le es (omega arith),
    level_of-put m c e.child_id l,
    eq_iff c e.child_id,
    rank_le l,
  )
  room-put_lt (e ∷ es) (inr p) h =
      ground (arith, room-put_lt es p h, level_of-put m c e.child_id l, eq_iff c e.child_id)

targets_child : (es : List Edge) (p : Text) → All (λ c. In c (child_ids es)) (targets es p)
unfolding targets
targets_child [] p = tt
targets_child (e ∷ es) p =
    let P : Text → Type 0 = λ c. In c (child_ids (e ∷ es)) in
    let rest =
      All-weaken (λ c. In c (child_ids es)) P (targets es p) (λ c h. inr h) (targets_child es p) in
    All-if P (is_empty e.parent_id || is_empty e.child_id) _ _ rest
      (All-if P (e.parent_id == p) _ _ (inl refl, rest) rest)

module _ (edges : List Edge) where
  measure : Walk → ℕ
  measure w = length w.queue + room edges w.effective

  visit_le :
      (l : Level) (w : Walk) (c : Text) → In c (child_ids edges) → measure (visit l w c) ≤ measure w
  unfolding measure visit strongest
  visit_le l w c h =
      ground (arith, room-put_lt w.effective c l edges h, length-append w.queue ((c, l) ∷ []))

  visit_all_le :
      (l : Level) (w : Walk) (cs : List Text)
      → All (λ c. In c (child_ids edges)) cs
      → measure (visit_all l w cs) ≤ measure w
  unfolding visit_all
  visit_all_le l w [] h = omega arith
  visit_all_le l w (c ∷ cs) (h, k) =
      omega (arith, visit_le l w c h, visit_all_le l (visit l w c) cs k)

  expand_le :
      (id : Text) (l : Level) (w : Walk) → measure (expand (child_index edges) id l w) ≤ measure w
  unfolding expand
  expand_le id l w = ground (
    arith,
    visit_all_le l w (children_of (child_index edges) id)
        (rw (children_of-child_index edges id) (targets_child edges id)),
  )

  walk_ends :
      (fuel : ℕ) (w : Walk) → measure w ≤ fuel → (walk fuel (child_index edges) w).queue ≡ []
  unfolding walk measure
  walk_ends zero w h = nil_of_length w.queue (omega arith)
  walk_ends (suc fuel) w h = elim (List-cases w.queue) [
    | inl e ↦ ground (arith, e)
    | inr ((id, l), rest, e) ↦
        let next : Walk = expand (child_index edges) id l (record w { queue = rest }) in
        ground (arith, e, walk_ends fuel next, expand_le id l (record w { queue = rest }))
  ]

room_le : (es : List Edge) (m : Levels) → room es m ≤ 4 * length es
unfolding room
room_le [] m = omega arith
room_le (e ∷ es) m = omega (arith, room_le es m)

length-seed : (w : Walk) (d : Levels) → length (seed w d).queue ≡ length w.queue + length d
unfolding seed
length-seed w [] = omega arith
length-seed w ((id, l) ∷ d) =
    omega (arith, length-seed (push w id l) d, length-append w.queue ((id, l) ∷ []))

-- The walk ends with nothing left to do, whatever the grants and the edges, cycles included.
pub run_ends : (direct : Levels) (edges : List Edge) → (run direct edges).queue ≡ []
unfolding run measure
run_ends direct edges =
    walk_ends edges (fuel_for direct edges) (seed nothing direct)
      (omega (arith, length-seed nothing direct, room_le edges (seed nothing direct).effective))
