-- ===== src/Catalog/Ancestors/Reached.antt =====
-- The search for ancestors in nodejs/models/resource.js misses none.
use theta_directory.Base.{
  ℕ, zero, suc, ◌≤◌, true, List, [], ◌∷◌, some, length, Text, includes, In, All-In, ◌≡◌, refl, sym,
  ◌∙◌, ◌⊎◌, inl, inr, arith, List-cases, subst, includes-cons, remaining, remaining_all,
}
use theta_directory.Inheritance.{Edge}
use theta_directory.Catalog.{Resource}
use theta_directory.Catalog.Ancestors.{parents_of, Ring, look_at_all, rings, ancestry}
use theta_directory.Catalog.Ancestors.Chain.{row, carries, Upward, parent, over}
use theta_directory.Catalog.Rollup.Below.{ids, length-ids}
use theta_directory.Catalog.Ancestors.Grows.{
  IsListed, IsSettled, IsSettled-grows, IsShrinking, IsLookedAll, look_at_all-IsLooked,
}

module _ (all : List Resource) (edges : List Edge) where
  module _ (id : Text) where
    -- Everything seen but the start is settled.
    abbrev IsSearched : Ring → Type 0
    IsSearched ring =
        (x : Text) → includes ring.seen x ≡ true → (x ≡ id) ⊎ IsSettled all edges ring x

    -- The search ends with this ring.
    abbrev IsEnd : Ring → List Resource → Ring → Type 0
    IsEnd ring out last =
        (out ≡ last.out)
        × (last.next ≡ [])
        × IsSearched last
        × ((p : Text) → IsListed all edges ring p → includes last.seen p ≡ true)

    stop :
        (ring : Ring) (out : List Resource)
        → out ≡ ring.out
        → ring.next ≡ []
        → IsSearched ring
        → IsEnd ring out ring
    stop ring out e none_left h = (
      e,
      none_left,
      h,
      λ p listed. elim listed [
        | inl seen ↦ seen
        | inr waiting ↦ absurd (subst (In p) none_left waiting)
      ],
    )

    -- A whole ring is looked at.
    next_ring :
        (ring after : Ring) (pids : List Text)
        → ring.next ≡ pids
        → IsLookedAll all edges (record ring { next = [] }) pids after
        → IsSearched ring
        → IsSearched after × ((p : Text) → IsListed all edges ring p → includes after.seen p ≡ true)
    next_ring ring after pids e (grows, seen, less) h =
        let listed : (p : Text) → IsListed all edges ring p → includes after.seen p ≡ true = λ p l.
          elim l [
            | inl old ↦ grows.seen p old
            | inr waiting ↦
                All-In (λ q. includes after.seen q ≡ true) pids p seen (subst (In p) e waiting)
          ] in
        (
          (λ x was. elim (grows.closed x was) [
            | inr done ↦ inr done
            | inl old ↦ elim (h x old) [
              | inl same ↦ inl same
              | inr done ↦ inr (
                  IsSettled-grows all edges ring after x grows.seen grows.out
                    (λ p waiting. inl (listed p (inr waiting))) done)
            ]
          ]),
          listed,
        )

    rings-stop :
        (fuel : ℕ) (ring : Ring) → ring.next ≡ [] → rings all edges (suc fuel) ring ≡ ring.out
    unfolding rings
    rings-stop fuel ring none_left = rw (none_left, rings) refl

    abbrev following : Ring → List Text → Ring
    following ring pids = look_at_all all edges (record ring { next = [] }) pids

    rings-more :
        (fuel : ℕ) (ring : Ring) (pid : Text) (pids : List Text)
        → ring.next ≡ pid ∷ pids
        → rings all edges (suc fuel) ring ≡ rings all edges fuel (following ring (pid ∷ pids))
    unfolding rings
    rings-more fuel ring pid pids more = rw (more, rings) refl

    room_left :
        (fuel : ℕ) (ring after : Ring) (pid : Text) (pids : List Text)
        → ring.next ≡ pid ∷ pids
        → IsShrinking all edges (record ring { next = [] }) after
        → (ring.next ≡ []) ⊎ (suc (remaining (ids all) ring.seen) ≤ suc fuel)
        → (after.next ≡ []) ⊎ (suc (remaining (ids all) after.seen) ≤ fuel)
    room_left fuel ring after pid pids more (inl done) room = inl done
    room_left fuel ring after pid pids more (inr less) (inl none_left) =
        absurd (ground (arith, sym more ∙ none_left))
    room_left fuel ring after pid pids more (inr less) (inr room) = inr (omega (arith, less, room))

    rings-IsEnd :
        (fuel : ℕ) (ring : Ring)
        → IsSearched ring
        → (ring.next ≡ []) ⊎ (suc (remaining (ids all) ring.seen) ≤ fuel)
        → (last : Ring) × IsEnd ring (rings all edges fuel ring) last
    unfolding rings
    rings-IsEnd zero ring h (inl none_left) = (ring, stop ring ring.out refl none_left h)
    rings-IsEnd zero ring h (inr room) = absurd (omega (arith, room))
    rings-IsEnd (suc fuel) ring h room = elim (List-cases ring.next) [
      | inl none_left ↦ (ring, stop ring _ (rings-stop fuel ring none_left) none_left h)
      | inr (pid, pids, more) ↦
          let looked = look_at_all-IsLooked all edges (pid ∷ pids) (record ring { next = [] }) in
          let here = next_ring ring (following ring (pid ∷ pids)) (pid ∷ pids) more looked h in
          let rest =
            rings-IsEnd fuel (following ring (pid ∷ pids)) here.0
              (room_left fuel ring (following ring (pid ∷ pids)) pid pids more looked.2 room) in
          (
            rest.0,
            (
              rings-more fuel ring pid pids more ∙ rest.1.0,
              rest.1.1,
              rest.1.2,
              λ p l. rest.1.3 p (inl (here.1 p l)),
            ),
          )
    ]

    -- The search starts with the parents of `id`.
    abbrev first_ring : Ring
    first_ring = record { seen = id ∷ []; out = []; next = parents_of edges id }

    first_ring-IsSearched : IsSearched first_ring
    unfolding includes
    first_ring-IsSearched x seen = elim (includes-cons id [] x seen) [
      | inl same ↦ inl (sym same)
      | inr never ↦ absurd (ground arith)
    ]

    seen_above :
        (last : Ring)
        → last.next ≡ []
        → IsSearched last
        → ((p : Text) → In p (parents_of edges id) → includes last.seen p ≡ true)
        → (q : Text) → Upward all edges id q
        → includes last.seen q ≡ true
    seen_above last none_left h start q (parent here) = start q here
    seen_above last none_left h start q (over m s up found here) =
        elim (h m (seen_above last none_left h start m up)) [
          | inl same ↦ start q (subst (λ k. In q (parents_of edges k)) same here)
          | inr settled ↦ elim ((settled s found).1 q here) [
            | inl seen ↦ seen
            | inr waiting ↦ absurd (subst (In q) none_left waiting)
          ]
        ]

    -- A host or a site above `id`, other than `id` itself, is found.
    pub ancestry_complete :
        (pid : Text) (p : Resource)
        → Upward all edges id pid
        → row all edges pid ≡ some p
        → carries all edges p ≡ true
        → (pid ≡ id) ⊎ In p (ancestry all edges id)
    unfolding ancestry
    ancestry_complete pid p up found holds =
        let done =
          rings-IsEnd (suc (suc (length all))) first_ring first_ring-IsSearched
            (inr (ground (arith, remaining_all (ids all) (id ∷ []), length-ids all))) in
        let seen = seen_above done.0 done.1.1 done.1.2 (λ q here. done.1.3 q (inr here)) pid up in
        elim (done.1.2 pid seen) [
          | inl same ↦ inl same
          | inr settled ↦ inr (subst (In p) (sym done.1.0) ((settled p found).0 holds))
        ]
