-- ===== src/Catalog/Rollup/Explored.antt =====
-- What a visit of the roll-up in nodejs/models/resource.js leaves behind.
use theta_directory.Base.{
  ℕ, ◌≤◌, true, false, List, [], ◌∷◌, some, find, Text, ◌==◌, eq_iff, includes, is_empty, get, put,
  get-put, In, All, ◌≡◌, sym, ◌∙◌, ◌⊎◌, inl, inr, arith, Bool-cases, none≢some, some-injective,
  subst, IsWithin,
}
use theta_directory.Inheritance.{children_of}
use theta_directory.Catalog.{Resource, Metadata}
use theta_directory.Catalog.Rollup.{Rolled, Walk, find_resource, own, merge}
use theta_directory.Catalog.Rollup.Below.{ids, Under, here, step}

pub found-ids :
    (all : List Resource) (id : Text) (r : Resource)
    → find_resource all id ≡ some r
    → includes (ids all) id ≡ true
unfolding includes find_resource
found-ids [] id r found = absurd (none≢some found)
found-ids (s ∷ rs) id r found = elim (Bool-cases (s.id == id)) [
  | inl same ↦ ground (arith, same)
  | inr other ↦ ground (arith, other, found-ids rs id r (rw (other, find_resource, find) at found))
]

module _ (rank : Text → ℕ) (value : Metadata → Text) (rank_nil : rank [] ≡ 0) where
  pub empty_rank : (t : Text) → is_empty t ≡ true → rank t ≡ 0
  unfolding is_empty
  empty_rank [] h = rank_nil
  empty_rank (c ∷ cs) h = absurd (ground arith)

  pub merge_above :
      (acc child : Rolled)
      → (rank acc.best ≤ rank (merge rank value acc child).best)
        × (rank child.best ≤ rank (merge rank value acc child).best)
  unfolding merge
  merge_above acc child = ground (arith, empty_rank acc.best)

  pub merge_cut :
      (acc child : Rolled)
      → (merge rank value acc child).truncated ≡ false
      → (acc.truncated ≡ false) × (child.truncated ≡ false)
  unfolding merge
  merge_cut acc child h = ground (arith, h)

  pub own_above : (r : Resource) → rank (value r.metadata) ≤ rank (own rank value r).best
  unfolding own
  own_above r = ground (arith, rank_nil)

  module _ (all : List Resource) (index : List (Text × List Text)) where
    -- No value at or below the resource ranks higher.
    abbrev pub IsBound : Text → ℕ → Type 0
    IsBound id b = (y : Resource) → Under all index id y → rank (value y.metadata) ≤ b

    -- Visited, or bounded by what a cached answer said.
    abbrev pub IsHandled : List Text → ℕ → Text → Type 0
    IsHandled visited b id = (includes visited id ≡ true) ⊎ IsBound id b

    abbrev pub IsSettled : List Text → ℕ → Text → Type 0
    IsSettled visited b id =
        (r : Resource)
        → find_resource all id ≡ some r
        → (rank (value r.metadata) ≤ b)
          × ((c : Text) → In c (children_of index id) → IsHandled visited b c)

    abbrev pub IsComplete : List (Text × Rolled) → Type 0
    IsComplete cache =
        (k : Text) (hit : Rolled) → get cache k ≡ some hit → IsBound k (rank hit.best)

    -- What an answer of the walk leaves behind, whatever it is asked about.
    pub record IsExplored (before : List Text) (answer : Rolled × Walk) : Type 0 where
      pub within : IsWithin before answer.1.visited
      pub closed :
          (x : Text)
          → includes answer.1.visited x ≡ true
          → (includes before x ≡ true) ⊎ IsSettled answer.1.visited (rank answer.0.best) x
      pub complete : IsComplete answer.1.cache

    abbrev pub IsAnswer : Text → Rolled × Walk → Type 0
    IsAnswer id answer =
        IsHandled answer.1.visited (rank answer.0.best) id
        × (answer.0.truncated ≡ false → IsBound id (rank answer.0.best))

    pub IsBound-weaken : (id : Text) (b c : ℕ) → b ≤ c → IsBound id b → IsBound id c
    IsBound-weaken id b c le h y below = ground (arith, le, h y below)

    pub IsHandled-weaken :
        (before after : List Text) (b c : ℕ) (id : Text)
        → IsWithin before after
        → b ≤ c
        → IsHandled before b id
        → IsHandled after c id
    IsHandled-weaken before after b c id sub le (inl seen) = inl (sub id seen)
    IsHandled-weaken before after b c id sub le (inr bound) = inr (IsBound-weaken id b c le bound)

    pub IsSettled-weaken :
        (before after : List Text) (b c : ℕ) (id : Text)
        → IsWithin before after
        → b ≤ c
        → IsSettled before b id
        → IsSettled after c id
    IsSettled-weaken before after b c id sub le h r found = (
      ground (arith, le, (h r found).0),
      λ k child. IsHandled-weaken before after b c k sub le ((h r found).1 k child),
    )

    -- Without cuts the answer bounds what stands below the children and the resource.
    pub IsBound-children :
        (id : Text) (r : Resource) (b : ℕ)
        → find_resource all id ≡ some r
        → rank (value r.metadata) ≤ b
        → ((c : Text) → In c (children_of index id) → IsBound c b)
        → IsBound id b
    IsBound-children id r b found le h y (here found') =
        subst (λ s. rank (value s.metadata) ≤ b) (some-injective (sym found ∙ found')) le
    IsBound-children id r b found le h y (step found' child below) = h _ child y below

    pub IsComplete-put :
        (cache : List (Text × Rolled)) (id : Text) (rolled : Rolled)
        → IsComplete cache
        → IsBound id (rank rolled.best)
        → IsComplete (put cache id rolled)
    IsComplete-put cache id rolled h p k hit found = elim (Bool-cases (id == k)) [
      | inl same ↦
          let e : rolled ≡ hit = some-injective (rw (get-put cache id k rolled, same) at found) in
          subst (λ a. IsBound k (rank a.best)) e
            (subst (λ j. IsBound j (rank rolled.best)) ((eq_iff id k).0 same) p)
      | inr other ↦ h k hit (rw (get-put cache id k rolled, other) at found)
    ]

    -- What the loop over the children leaves behind: it only adds to what it had.
    abbrev pub IsLoop : List Text → Rolled → List Text → Rolled × Walk → Type 0
    IsLoop before acc cs answer =
        IsExplored before answer
        × (rank acc.best ≤ rank answer.0.best)
        × (answer.0.truncated ≡ false → acc.truncated ≡ false)
        × All (λ c. IsAnswer c answer) cs

    pub IsExplored-trans :
        (before : List Text) (child answer : Rolled × Walk)
        → rank child.0.best ≤ rank answer.0.best
        → IsExplored before child
        → IsExplored child.1.visited answer
        → IsExplored before answer
    IsExplored-trans before child answer le e rest = record {
      within = λ x h. rest.within x (e.within x h);
      closed = λ x h. elim (rest.closed x h) [
        | inr done ↦ inr done
        | inl seen ↦ elim (e.closed x seen) [
          | inl first ↦ inl first
          | inr done ↦ inr (
              IsSettled-weaken child.1.visited answer.1.visited (rank child.0.best)
                (rank answer.0.best) x rest.within le done)
        ]
      ];
      complete = rest.complete;
    }

    -- One more child before the rest of the loop.
    pub IsLoop-cons :
        (before : List Text) (acc : Rolled) (c : Text) (cs : List Text)
        (child answer : Rolled × Walk)
        → IsExplored before child
        → IsAnswer c child
        → IsLoop child.1.visited (merge rank value acc child.0) cs answer
        → IsLoop before acc (c ∷ cs) answer
    IsLoop-cons before acc c cs child answer e (handled, whole) (rest, le, cut, others) =
        let above = merge_above acc child.0 in
        let le_child : rank child.0.best ≤ rank answer.0.best = ground (arith, le, above.1) in
        (
          IsExplored-trans before child answer le_child e rest,
          ground (arith, le, above.0),
          (λ h. (merge_cut acc child.0 (cut h)).0),
          (
            (
              IsHandled-weaken child.1.visited answer.1.visited (rank child.0.best)
                  (rank answer.0.best) c rest.within le_child handled,
              λ h.
                  IsBound-weaken c (rank child.0.best) (rank answer.0.best) le_child
                    (whole (merge_cut acc child.0 (cut h)).1),
            ),
            others,
          ),
        )
