-- ===== src/Catalog/Ancestors/Site.antt =====
-- `findAncestorSiteSlug` of nodejs/models/resource.js finds a site if there is one.
use theta_directory.Base.{
  ℕ, zero, suc, ◌≤◌, true, false, ◌||◌, List, [], ◌∷◌, map, none, some, length, Text, includes,
  is_empty, In, All, All-self, All-In, All-weaken, ◌≡◌, refl, sym, ◌∙◌, ap, ◌⊎◌, inl, inr, arith,
  Bool-cases, Option-cases, subst, none≢some, IsWithin, IsWithin-cons, includes-here, includes-cons,
  includes-In, remaining, remaining_all, remaining_mono, remaining-visit,
}
use theta_directory.Inheritance.{Edge}
use theta_directory.Catalog.{Resource}
use theta_directory.Catalog.Ancestors.{
  parents_of, climb_fuel, is_site, climb, site_above, find_ancestor_site_slug,
}
use theta_directory.Catalog.Ancestors.Found.{
  HasSite, direct, above, is_empty_nil, is_empty_of, or_cases, site_above-IsFound,
}

module _ (all : List Resource) (edges : List Edge) where
  -- Done with, when nothing was found: no name, or visited.
  abbrev IsHandled : List Text → Text → Type 0
  IsHandled visited p = (is_site all p ≡ none) × ((is_empty p ≡ true) ⊎ (includes visited p ≡ true))

  abbrev IsBarren : List Text → Text → Type 0
  IsBarren visited id = (p : Text) → In p (parents_of edges id) → IsHandled visited p

  abbrev IsClosed : List Text → List Text → Type 0
  IsClosed before after =
      (x : Text) → includes after x ≡ true → (includes before x ≡ true) ⊎ IsBarren after x

  -- The walk only adds names to the set, and all is barren if it answers nothing.
  abbrev IsExplored : List Text → List Text → Type 0
  IsExplored before after = IsWithin before after × IsClosed before after

  IsExplored-trans :
      (before between after : List Text)
      → IsExplored before between
      → IsExplored between after
      → IsExplored before after
  IsExplored-trans before between after (sub, closed) (sub', closed') = (
    (λ x h. sub' x (sub x h)),
    λ x h. elim (closed' x h) [
      | inr done ↦ inr done
      | inl seen ↦ elim (closed x seen) [
        | inl first ↦ inl first
        | inr done ↦ inr (λ p parent.
            let old = done p parent in
            (old.0, elim old.1 [ inl e ↦ inl e | inr s ↦ inr (sub' p s) ]))
      ]
    ],
  )

  abbrev IsNothing : List Text → Text → Text × List Text → Type 0
  IsNothing before id answer =
      answer.0 ≡ []
      → IsExplored before answer.1 × ((is_empty id ≡ true) ⊎ (includes answer.1 id ≡ true))

  module _ (universe : List Text)
      (slugs : (id : Text) (site : Resource)
        → is_site all id ≡ some site
        → is_empty site.slug ≡ false) where
    climb-skip :
        (visit : Text → List Text → Text × List Text) (p : Text) (ps visited : List Text)
        → is_site all p ≡ none
        → is_empty (visit p visited).0 ≡ true
        → climb all visit (p ∷ ps) visited ≡ climb all visit ps (visit p visited).1
    unfolding climb
    climb-skip visit p ps visited other none_above = rw (other, none_above, climb) refl

    -- The loop over the parents of `id` ends without an answer.
    leave :
        (visited : List Text) (id : Text) (after : List Text)
        → IsExplored (id ∷ visited) after
        → All (IsHandled after) (parents_of edges id)
        → IsExplored visited after × ((is_empty id ≡ true) ⊎ (includes after id ≡ true))
    leave visited id after (sub, closed) parents =
        let barren : IsBarren after id =
          λ p parent. All-In (IsHandled after) (parents_of edges id) p parents parent in
        (
          (
            (λ x h. sub x (IsWithin-cons id visited x h)),
            λ x h. elim (closed x h) [
              | inr done ↦ inr done
              | inl first ↦ elim (includes-cons id visited x first) [
                | inl same ↦ inr (subst (IsBarren after) same barren)
                | inr before ↦ inl before
              ]
            ],
          ),
          inr (sub id (includes-here id visited)),
        )

    climb-IsNothing :
        (visit : Text → List Text → Text × List Text) (fuel : ℕ)
        → ((p : Text) (visited : List Text)
            → includes universe p ≡ true
            → suc (remaining universe visited) ≤ fuel
            → IsNothing visited p (visit p visited))
        → (ps : List Text) → All (λ p. includes universe p ≡ true) ps
        → (visited : List Text) → suc (remaining universe visited) ≤ fuel
        → (climb all visit ps visited).0 ≡ []
        → IsExplored visited (climb all visit ps visited).1
          × All (IsHandled (climb all visit ps visited).1) ps
    unfolding climb
    climb-IsNothing visit fuel visits [] known visited room empty =
        (((λ x h. h), (λ x h. inl h)), tt)
    climb-IsNothing visit fuel visits (p ∷ ps) (here, known) visited room empty =
        elim (Option-cases (is_site all p)) [
          | inr (site, found) ↦ absurd (
              ground
                (arith, slugs p site found, is_empty_of site.slug (rw (found, climb) at empty)))
          | inl other ↦ elim (Bool-cases (is_empty (visit p visited).0)) [
            | inr full ↦ absurd (
                ground
                  (arith, full, is_empty_of (visit p visited).0 (rw (other, full, climb) at empty)))
            | inl none_above ↦
                let skip = climb-skip visit p ps visited other none_above in
                let one =
                  visits p visited here room (is_empty_nil (visit p visited).0 none_above) in
                let rest =
                  climb-IsNothing visit fuel visits ps known (visit p visited).1
                    (ground
                      (arith, room, remaining_mono universe visited (visit p visited).1 one.0.0))
                    (ap (λ answer. answer.0) (sym skip) ∙ empty) in
                subst (λ answer. IsExplored visited answer.1 × All (IsHandled answer.1) (p ∷ ps))
                  (sym skip)
                  (
                    IsExplored-trans visited (visit p visited).1 _ one.0 rest.0,
                    ((other, elim one.1 [ inl e ↦ inl e | inr s ↦ inr (rest.0.0 p s) ]), rest.1),
                  )
          ]
        ]

    site_above-IsNothing :
        ((id : Text) → All (λ p. includes universe p ≡ true) (parents_of edges id))
        → (fuel : ℕ) (id : Text) (visited : List Text) → includes universe id ≡ true
        → suc (remaining universe visited) ≤ fuel
        → IsNothing visited id (site_above all edges fuel id visited)
    unfolding site_above
    site_above-IsNothing known zero id visited here room = absurd (omega (arith, room))
    site_above-IsNothing known (suc fuel) id visited here room =
        elim (Bool-cases (is_empty id || includes visited id)) [
          | inl stop ↦
              rw (stop, site_above)
                (λ empty.
                  (((λ x h. h), (λ x h. inl h)), or_cases (is_empty id) (includes visited id) stop))
          | inr go ↦
              let loop =
                climb-IsNothing (site_above all edges fuel) fuel (site_above-IsNothing known fuel)
                  (parents_of edges id) (known id) (id ∷ visited)
                  (ground (arith, room, go, remaining-visit universe visited id here)) in
              rw (go, site_above) (λ empty. leave visited id _ (loop empty).0 (loop empty).1)
        ]

    unnamed_no_site : (id t : Text) → is_empty id ≡ true → HasSite all edges id t → ⊥
    unnamed_no_site id t unnamed (direct p site named parent found) = absurd (ground arith)
    unnamed_no_site id t unnamed (above p named parent up) = absurd (ground arith)

    -- From a resource that is visited nothing leads to a site.
    no_site :
        (after : List Text)
        → IsClosed [] after
        → (id t : Text) → includes after id ≡ true
        → HasSite all edges id t
        → ⊥
    unfolding includes
    no_site after closed id t seen (direct p site named parent found) = elim (closed id seen) [
      | inl never ↦ absurd (ground arith)
      | inr barren ↦ none≢some (sym (barren p parent).0 ∙ found)
    ]
    no_site after closed id t seen (above p named parent up) = elim (closed id seen) [
      | inl never ↦ absurd (ground arith)
      | inr barren ↦ elim (barren p parent).1 [
        | inl unnamed ↦ unnamed_no_site p t unnamed up
        | inr next ↦ no_site after closed p t next up
      ]
    ]

length-map : (es : List Edge) → length (map (λ e. e.parent_id) es) ≡ length es
length-map [] = refl
length-map (e ∷ es) = ap suc (length-map es)

-- The names that a walk can meet.
universe : List Edge → Text → List Text
universe edges id = id ∷ map (λ e. e.parent_id) edges

parents-universe :
    (es : List Edge) (id p : Text)
    → includes (parents_of es id) p ≡ true
    → includes (map (λ e. e.parent_id) es) p ≡ true
unfolding parents_of includes
parents-universe [] id p h = absurd (ground arith)
parents-universe (e ∷ es) id p h = ground (arith, h, parents-universe es id p)

known_parents :
    (edges : List Edge) (start id : Text)
    → All (λ p. includes (universe edges start) p ≡ true) (parents_of edges id)
unfolding universe
known_parents edges start id =
    All-weaken _ _ (parents_of edges id)
      (λ p parent.
        IsWithin-cons start (map (λ e. e.parent_id) edges) p
          (parents-universe edges id p (includes-In (parents_of edges id) p parent)))
      (All-self (parents_of edges id))

universe_room :
    (edges : List Edge) (id : Text) → suc (remaining (universe edges id) []) ≤ climb_fuel edges
unfolding universe climb_fuel
universe_room edges id =
    ground (arith, remaining_all (id ∷ map (λ e. e.parent_id) edges) [], length-map edges)

-- The answer is the slug of a site above the resource; where every site has a slug, it is empty
-- only if there is no site above.
pub find_ancestor_site_slug_iff :
    (all : List Resource) (edges : List Edge)
    → ((p : Text) (site : Resource) → is_site all p ≡ some site → is_empty site.slug ≡ false)
    → (id : Text)
    → HasSite all edges id (find_ancestor_site_slug all edges id)
      ⊎ ((find_ancestor_site_slug all edges id ≡ []) × ((t : Text) → HasSite all edges id t → ⊥))
unfolding find_ancestor_site_slug universe
find_ancestor_site_slug_iff all edges slugs id =
    let answer = site_above all edges (climb_fuel edges) id [] in
    elim (Bool-cases (is_empty answer.0)) [
      | inr full ↦ elim (site_above-IsFound all edges (climb_fuel edges) id []) [
        | inl empty ↦ absurd (ground (arith, full, is_empty_of answer.0 empty))
        | inr site ↦ inl site
      ]
      | inl none_above ↦
          let empty = is_empty_nil answer.0 none_above in
          let done =
            site_above-IsNothing all edges (universe edges id) slugs (known_parents edges id)
              (climb_fuel edges) id [] (includes-here id (map (λ e. e.parent_id) edges))
              (universe_room edges id) empty in
          inr (
            empty,
            λ t site. elim done.1 [
              | inl unnamed ↦ unnamed_no_site all edges (universe edges id) slugs id t unnamed site
              | inr seen ↦
                  no_site all edges (universe edges id) slugs answer.1 done.0.1 id t seen site
            ],
          )
    ]
