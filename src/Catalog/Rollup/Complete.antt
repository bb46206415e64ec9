-- ===== src/Catalog/Rollup/Complete.antt =====
-- Nothing below is missed by the roll-up of nodejs/models/resource.js, on any graph.
use theta_directory.Base.{
  ℕ, zero, suc, ◌≤◌, true, false, List, [], ◌∷◌, none, some, length, Text, includes, get, put,
  All-In, ◌≡◌, sym, ◌∙◌, ◌⊎◌, inl, inr, arith, Bool-cases, Option-cases, none≢some, some-injective,
  subst, if_elim, IsWithin-cons, includes-here, includes-cons, remaining, remaining_all,
  remaining_mono, remaining-visit,
}
use theta_directory.Inheritance.{children_of}
use theta_directory.Catalog.{Resource, Metadata}
use theta_directory.Catalog.Rollup.{
  Rolled, Walk, find_resource, nothing, own, merge, roll_children, remember, roll, roll_from,
}
use theta_directory.Catalog.Rollup.Below.{ids, length-ids, here, step}
use theta_directory.Catalog.Rollup.Explored.{
  found-ids, own_above, IsBound, IsHandled, IsSettled, IsComplete, IsExplored, IsAnswer,
  IsBound-children, IsComplete-put, IsLoop, IsLoop-cons,
}

module _ (rank : Text → ℕ) (value : Metadata → Text) (rank_nil : rank [] ≡ 0) where
  module _ (all : List Resource) (index : List (Text × List Text)) where
    abbrev IsStep : List Text → Text → Rolled × Walk → Type 0
    IsStep before id answer =
        IsExplored rank value rank_nil all index before answer
        × IsAnswer rank value rank_nil all index id answer

    roll_children-IsLoop :
        (visit : Text → Walk → Rolled × Walk) (fuel : ℕ)
        → ((c : Text) (w : Walk)
            → IsComplete rank value rank_nil all index w.cache
            → suc (remaining (ids all) w.visited) ≤ fuel
            → IsStep w.visited c (visit c w))
        → (cs : List Text) (acc : Rolled) (w : Walk)
        → IsComplete rank value rank_nil all index w.cache
        → suc (remaining (ids all) w.visited) ≤ fuel
        → IsLoop rank value rank_nil all index w.visited acc cs
            (roll_children rank value visit cs acc w)
    unfolding roll_children
    roll_children-IsLoop visit fuel visits [] acc w h room = (
      record { within = λ x seen. seen; closed = λ x seen. inl seen; complete = h },
      omega arith,
      (λ whole. whole),
      tt,
    )
    roll_children-IsLoop visit fuel visits (c ∷ cs) acc w h room =
        let one = visits c w h room in
        let less = remaining_mono (ids all) w.visited (visit c w).1.visited one.0.within in
        IsLoop-cons rank value rank_nil all index w.visited acc c cs (visit c w) _ one.0 one.1 (
          roll_children-IsLoop visit fuel visits cs (merge rank value acc (visit c w).0)
            (visit c w).1 one.0.complete (ground (arith, less, room)))

    -- The end of a visit: the resource is settled, since its children are.
    remember-IsStep :
        (visited : List Text) (id : Text) (r : Resource) (answer : Rolled × Walk)
        → find_resource all id ≡ some r
        → includes visited id ≡ false
        → IsLoop rank value rank_nil all index
            (id ∷ visited)
            (own rank value r)
            (children_of index id)
            answer
        → IsStep visited id (remember rank value id answer)
    unfolding remember
    remember-IsStep visited id r (rolled, w) found unseen (e, le, cut, below) =
        let top : rank (value r.metadata) ≤ rank rolled.best =
          ground (arith, own_above rank value rank_nil r, le) in
        let settled : IsSettled rank value rank_nil all index w.visited (rank rolled.best) id =
          λ s found'. (
            subst (λ u. rank (value u.metadata) ≤ rank rolled.best)
                (some-injective (sym found ∙ found')) top,
            λ c child.
                (All-In (λ k. IsAnswer rank value rank_nil all index k (rolled, w))
                  (children_of index id) c below child).0,
          ) in
        let whole : rolled.truncated ≡ false
            → IsBound rank value rank_nil all index id (rank rolled.best) =
          λ h.
            IsBound-children rank value rank_nil all index id r (rank rolled.best) found top
              (λ c child.
                (All-In (λ k. IsAnswer rank value rank_nil all index k (rolled, w))
                    (children_of index id) c below child).1
                  h) in
        let seen : includes w.visited id ≡ true = e.within id (includes-here id visited) in
        let closed : (x : Text)
            → includes w.visited x ≡ true
            → (includes visited x ≡ true)
              ⊎ IsSettled rank value rank_nil all index w.visited (rank rolled.best) x =
          λ x h. elim (e.closed x h) [
            | inr done ↦ inr done
            | inl first ↦ elim (includes-cons id visited x first) [
              | inl same ↦ inr (
                  subst (IsSettled rank value rank_nil all index w.visited (rank rolled.best)) same
                    settled)
              | inr before ↦ inl before
            ]
          ] in
        if_elim (λ u. IsStep visited id (rolled, u)) rolled.truncated w
          (record w { cache = put w.cache id rolled })
          (λ was_cut. (
            record {
              within = λ x h. e.within x (IsWithin-cons id visited x h);
              closed = closed;
              complete = e.complete;
            },
            (inl seen, whole),
          ))
          (λ not_cut. (
            record {
              within = λ x h. e.within x (IsWithin-cons id visited x h);
              closed = closed;
              complete =
                  IsComplete-put rank value rank_nil all index w.cache id rolled e.complete
                    (whole not_cut);
            },
            (inl seen, whole),
          ))

    -- Nothing stands below a row that does not exist.
    IsBound-unknown :
        (id : Text) (b : ℕ)
        → find_resource all id ≡ none
        → IsBound rank value rank_nil all index id b
    IsBound-unknown id b unknown y (here found) = absurd (none≢some (sym unknown ∙ found))
    IsBound-unknown id b unknown y (step found child below) =
        absurd (none≢some (sym unknown ∙ found))

    unknown-IsStep :
        (w : Walk) (id : Text)
        → find_resource all id ≡ none
        → IsComplete rank value rank_nil all index w.cache
        → IsStep w.visited id (nothing false, record w { visited = id ∷ w.visited })
    unknown-IsStep w id unknown h = (
      record {
        within = IsWithin-cons id w.visited;
        closed = λ x seen. elim (includes-cons id w.visited x seen) [
          | inl same ↦ inr (λ r found. absurd (
              none≢some (sym unknown ∙ subst (λ k. find_resource all k ≡ some r) (sym same) found)))
          | inr before ↦ inl before
        ];
        complete = h;
      },
      (inr (IsBound-unknown id _ unknown), λ whole. IsBound-unknown id _ unknown),
    )

    roll-IsStep :
        (fuel : ℕ) (id : Text) (w : Walk)
        → IsComplete rank value rank_nil all index w.cache
        → suc (remaining (ids all) w.visited) ≤ fuel
        → IsStep w.visited id (roll rank value all index fuel id w)
    unfolding roll
    roll-IsStep zero id w h room = absurd (omega (arith, room))
    roll-IsStep (suc fuel) id w h room = elim (Option-cases (get w.cache id)) [
      | inr (hit, cached) ↦
          rw (cached, roll)
            (
              record { within = λ x seen. seen; closed = λ x seen. inl seen; complete = h },
              (inr (h id hit cached), λ whole. h id hit cached),
            )
      | inl fresh ↦ elim (Bool-cases (includes w.visited id)) [
        | inl seen ↦
            rw (fresh, seen, roll)
              (
                record { within = λ x seen. seen; closed = λ x seen. inl seen; complete = h },
                (inl seen, λ whole. absurd (ground arith)),
              )
        | inr unseen ↦ elim (Option-cases (find_resource all id)) [
          | inl unknown ↦ rw (fresh, unseen, unknown, roll) (unknown-IsStep w id unknown h)
          | inr (r, found) ↦
              rw (fresh, unseen, found, roll)
                (remember-IsStep w.visited id r _ found unseen (
                  roll_children-IsLoop (roll rank value all index fuel) fuel (roll-IsStep fuel)
                    (children_of index id) (own rank value r)
                    (record w { visited = id ∷ w.visited }) h
                    (ground (
                      arith,
                      remaining-visit (ids all) w.visited id (found-ids all id r found) unseen,
                      room,
                    ))))
        ]
      ]
    ]

    -- A visited row is settled or, at the start, there is none.
    IsBound-handled :
        (answer : Rolled × Walk)
        → IsExplored rank value rank_nil all index [] answer
        → (id : Text)
        → IsHandled rank value rank_nil all index answer.1.visited (rank answer.0.best) id
        → IsBound rank value rank_nil all index id (rank answer.0.best)
    unfolding includes
    IsBound-handled answer e id (inr bound) y below = bound y below
    IsBound-handled answer e id (inl seen) y (here found) = elim (e.closed id seen) [
      | inl never ↦ absurd (ground arith)
      | inr settled ↦ (settled y found).0
    ]
    IsBound-handled answer e id (inl seen) y (step found child below) = elim (e.closed id seen) [
      | inl never ↦ absurd (ground arith)
      | inr settled ↦ IsBound-handled answer e _ ((settled _ found).1 _ child) y below
    ]

    pub roll_from-IsComplete :
        (cache : List (Text × Rolled)) (id : Text)
        → IsComplete rank value rank_nil all index cache
        → IsBound rank value rank_nil all index id
            (rank (roll_from rank value all index cache id).0.best)
          × IsComplete rank value rank_nil all index
              (roll_from rank value all index cache id).1.cache
    unfolding roll_from
    roll_from-IsComplete cache id h =
        let start : Walk = record { visited = []; cache = cache } in
        let done =
          roll-IsStep (suc (length all)) id start h
            (ground (arith, remaining_all (ids all) [], length-ids all)) in
        (IsBound-handled _ done.0 id done.1.0, done.0.complete)
