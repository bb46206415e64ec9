-- ===== src/Catalog/Ancestors/Grows.antt =====
-- How the search for ancestors in nodejs/models/resource.js grows.
use theta_directory.Base.{
  suc, ◌≤◌, true, List, [], ◌∷◌, ◌++◌, some, if◌then◌else◌, if_elim, Text, includes, get, put,
  get-put, is_some, In, In-append_left, In-append_right, All, ◌≡◌, refl, sym, ◌∙◌, ◌⊎◌, inl, inr,
  arith, Bool-cases, Option-cases, subst, none≢some, some-injective, IsWithin, IsWithin-cons,
  includes-here, includes-cons, remaining, remaining_mono, remaining-visit,
}
use theta_directory.Inheritance.{Edge}
use theta_directory.Catalog.{Resource}
use theta_directory.Catalog.Projection.{by_id_from}
use theta_directory.Catalog.Rollup.Below.{ids}
use theta_directory.Catalog.Ancestors.{parents_of, Ring, look_at, look_at_all}
use theta_directory.Catalog.Ancestors.Chain.{row, carries}

pub row-ids :
    (index : List (Text × Resource)) (rs : List Resource) (id : Text)
    → is_some (get (by_id_from index rs) id) ≡ true
    → (is_some (get index id) ≡ true) ⊎ (includes (ids rs) id ≡ true)
unfolding by_id_from includes
row-ids index [] id h = inl h
row-ids index (r ∷ rs) id h =
    ground (arith, row-ids (put index r.id r) rs id h, get-put index r.id id r)

module _ (all : List Resource) (edges : List Edge) where
  abbrev pub IsListed : Ring → Text → Type 0
  IsListed ring p = (includes ring.seen p ≡ true) ⊎ In p ring.next

  abbrev pub IsSettled : Ring → Text → Type 0
  IsSettled ring x =
      (s : Resource)
      → row all edges x ≡ some s
      → (carries all edges s ≡ true → In s ring.out)
        × ((p : Text) → In p (parents_of edges x) → IsListed ring p)

  -- One ring grows into another.
  pub record Grows (before after : Ring) : Type 0 where
    pub seen : IsWithin before.seen after.seen
    pub out : (s : Resource) → In s before.out → In s after.out
    pub next : (p : Text) → In p before.next → In p after.next
    pub closed :
        (x : Text)
        → includes after.seen x ≡ true
        → (includes before.seen x ≡ true) ⊎ IsSettled after x

  pub IsSettled-grows :
      (before after : Ring) (x : Text)
      → IsWithin before.seen after.seen
      → ((s : Resource) → In s before.out → In s after.out)
      → ((p : Text) → In p before.next → IsListed after p)
      → IsSettled before x
      → IsSettled after x
  IsSettled-grows before after x seen out next settled s found =
      let old = settled s found in
      (
        (λ holds. out s (old.0 holds)),
        λ p here. elim (old.1 p here) [ inl e ↦ inl (seen p e) | inr e ↦ next p e ],
      )

  pub Grows-trans : (a b c : Ring) → Grows a b → Grows b c → Grows a c
  Grows-trans a b c g h = record {
    seen = λ x e. h.seen x (g.seen x e);
    out = λ s e. h.out s (g.out s e);
    next = λ p e. h.next p (g.next p e);
    closed = λ x e. elim (h.closed x e) [
      | inr done ↦ inr done
      | inl middle ↦ elim (g.closed x middle) [
        | inl first ↦ inl first
        | inr done ↦ inr (IsSettled-grows b c x h.seen h.out (λ p k. inr (h.next p k)) done)
      ]
    ];
  }

  pub Grows-refl : (ring : Ring) → Grows ring ring
  Grows-refl ring = record {
    seen = λ x e. e;
    out = λ s e. e;
    next = λ p e. e;
    closed = λ x e. inl e;
  }

  -- Nothing new is to be looked at, or a row was seen that was not.
  abbrev pub IsShrinking : Ring → Ring → Type 0
  IsShrinking before after =
      (after.next ≡ before.next)
      ⊎ (suc (remaining (ids all) after.seen) ≤ remaining (ids all) before.seen)

  abbrev pub IsLooked : Ring → Text → Ring → Type 0
  IsLooked before pid after =
      Grows before after × (includes after.seen pid ≡ true) × IsShrinking before after

  -- The ring behind a row that was new.
  pub enter :
      (ring after : Ring) (pid : Text)
      → after.seen ≡ pid ∷ ring.seen
      → ((s : Resource) → In s ring.out → In s after.out)
      → ((p : Text) → In p ring.next → In p after.next)
      → IsSettled after pid
      → Grows ring after
  enter ring after pid e out next settled = record {
    seen = λ x h. subst (λ v. includes v x ≡ true) (sym e) (IsWithin-cons pid ring.seen x h);
    out = out;
    next = next;
    closed = λ x h. elim (includes-cons pid ring.seen x (subst (λ v. includes v x ≡ true) e h)) [
      | inl same ↦ inr (subst (IsSettled after) same settled)
      | inr before ↦ inl before
    ];
  }

  pub row_known :
      (pid : Text) (p : Resource) → row all edges pid ≡ some p → includes (ids all) pid ≡ true
  unfolding get
  row_known pid p found = elim (row-ids [] all pid (rw found refl)) [
    | inl never ↦ absurd (ground arith)
    | inr listed ↦ listed
  ]

  -- The ring after a new row.
  abbrev pub with_row : Ring → Text → Resource → Ring
  with_row ring pid p = record {
    seen = pid ∷ ring.seen;
    out = if carries all edges p then ring.out ++ p ∷ [] else ring.out;
    next = ring.next ++ parents_of edges pid;
  }

  pub new_row :
      (ring : Ring) (pid : Text) (p : Resource)
      → row all edges pid ≡ some p
      → IsSettled (with_row ring pid p) pid
  new_row ring pid p found s found' =
      let same : p ≡ s = some-injective (sym found ∙ found') in
      (
        subst (λ u. carries all edges u ≡ true → In u (with_row ring pid p).out) same
            (λ holds.
              if_elim (In p) (carries all edges p) (ring.out ++ p ∷ []) ring.out
                (λ kept. In-append_right p ring.out (p ∷ []) (inl refl))
                (λ fails. absurd (ground (arith, holds, fails)))),
        λ q here. inr (In-append_right q ring.next (parents_of edges pid) here),
      )

  pub look_at-IsLooked : (ring : Ring) (pid : Text) → IsLooked ring pid (look_at all edges ring pid)
  unfolding look_at
  look_at-IsLooked ring pid = elim (Bool-cases (includes ring.seen pid)) [
    | inl seen ↦ rw (seen, look_at) (Grows-refl ring, seen, inl refl)
    | inr fresh ↦ elim (Option-cases (row all edges pid)) [
      | inl missing ↦
          rw (fresh, missing, look_at)
            (
              enter ring (record ring { seen = pid ∷ ring.seen }) pid refl (λ s e. e) (λ p e. e)
                  (λ s found. absurd (none≢some (sym missing ∙ found))),
              includes-here pid ring.seen,
              inl refl,
            )
      | inr (p, found) ↦
          rw (fresh, found, look_at)
            (
              enter ring (with_row ring pid p) pid refl
                  (λ s e.
                    if_elim (In s) (carries all edges p) (ring.out ++ p ∷ []) ring.out
                      (λ holds. In-append_left s ring.out (p ∷ []) e) (λ fails. e))
                  (λ q e. In-append_left q ring.next (parents_of edges pid) e)
                  (new_row ring pid p found),
              includes-here pid ring.seen,
              inr (remaining-visit (ids all) ring.seen pid (row_known pid p found) fresh),
            )
    ]
  ]

  abbrev pub IsLookedAll : Ring → List Text → Ring → Type 0
  IsLookedAll before pids after =
      Grows before after
      × All (λ pid. includes after.seen pid ≡ true) pids
      × IsShrinking before after

  pub IsShrinking-trans :
      (a b c : Ring) → Grows a b → Grows b c → IsShrinking a b → IsShrinking b c → IsShrinking a c
  IsShrinking-trans a b c g h (inl e) (inl f) = inl (f ∙ e)
  IsShrinking-trans a b c g h (inr less) s =
      inr (ground (arith, less, remaining_mono (ids all) b.seen c.seen h.seen))
  IsShrinking-trans a b c g h (inl e) (inr less) =
      inr (ground (arith, less, remaining_mono (ids all) a.seen b.seen g.seen))

  pub look_at_all-IsLooked :
      (pids : List Text) (ring : Ring) → IsLookedAll ring pids (look_at_all all edges ring pids)
  unfolding look_at_all
  look_at_all-IsLooked [] ring = (Grows-refl ring, tt, inl refl)
  look_at_all-IsLooked (pid ∷ pids) ring =
      let one = look_at-IsLooked ring pid in
      let rest = look_at_all-IsLooked pids (look_at all edges ring pid) in
      (
        Grows-trans ring (look_at all edges ring pid) _ one.0 rest.0,
        (rest.0.seen pid one.1, rest.1),
        IsShrinking-trans ring (look_at all edges ring pid) _ one.0 rest.0 one.2 rest.2,
      )
