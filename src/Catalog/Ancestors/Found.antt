-- ===== src/Catalog/Ancestors/Found.antt =====
-- What `findAncestorSiteSlug` of nodejs/models/resource.js finds is a site above.
use theta_directory.Base.{
  ℕ, zero, suc, Bool, true, false, ◌||◌, List, [], ◌∷◌, some, Text, includes, is_empty, In, All,
  All-self, ◌≡◌, refl, ◌⊎◌, inl, inr, arith, Bool-cases, Option-cases,
}
use theta_directory.Inheritance.{Edge}
use theta_directory.Catalog.{Resource}
use theta_directory.Catalog.Ancestors.{parents_of, is_site, climb, site_above}

-- A site is a parent of the resource, or above a parent.
pub data HasSite (all : List Resource) (edges : List Edge) : Text → Text → Type 0 where
  direct :
      {id : Text} (p : Text) (site : Resource)
      → is_empty id ≡ false
      → In p (parents_of edges id)
      → is_site all p ≡ some site
      → HasSite all edges id site.slug
  above :
      {id t : Text} (p : Text)
      → is_empty id ≡ false
      → In p (parents_of edges id)
      → HasSite all edges p t
      → HasSite all edges id t

pub is_empty_nil : (t : Text) → is_empty t ≡ true → t ≡ []
unfolding is_empty
is_empty_nil [] h = refl
is_empty_nil (c ∷ cs) h = absurd (ground arith)

pub is_empty_of : (t : Text) → t ≡ [] → is_empty t ≡ true
unfolding is_empty
is_empty_of t e = rw e refl

pub or_cases : (a b : Bool) → (a || b) ≡ true → (a ≡ true) ⊎ (b ≡ true)
or_cases a b h = ground (arith, h)

module _ (all : List Resource) (edges : List Edge) where
  abbrev pub IsFound : Text → Text × List Text → Type 0
  IsFound id answer = (answer.0 ≡ []) ⊎ HasSite all edges id answer.0

  pub climb-IsFound :
      (visit : Text → List Text → Text × List Text) (id : Text)
      → is_empty id ≡ false
      → ((p : Text) (visited : List Text) → IsFound p (visit p visited))
      → (ps : List Text) → All (λ p. In p (parents_of edges id)) ps
      → (visited : List Text) → IsFound id (climb all visit ps visited)
  unfolding climb
  climb-IsFound visit id named visits [] below visited = inl refl
  climb-IsFound visit id named visits (p ∷ ps) (parent, below) visited =
      elim (Option-cases (is_site all p)) [
        | inr (site, found) ↦ rw (found, climb) (inr (direct p site named parent found))
        | inl other ↦ elim (Bool-cases (is_empty (visit p visited).0)) [
          | inl empty ↦
              rw (other, empty, climb)
                (climb-IsFound visit id named visits ps below (visit p visited).1)
          | inr full ↦
              rw (other, full, climb)
                (elim (visits p visited) [ inl e ↦ inl e | inr up ↦ inr (above p named parent up) ])
        ]
      ]

  pub site_above-IsFound :
      (fuel : ℕ) (id : Text) (visited : List Text)
      → IsFound id (site_above all edges fuel id visited)
  unfolding site_above
  site_above-IsFound zero id visited = inl refl
  site_above-IsFound (suc fuel) id visited =
      elim (Bool-cases (is_empty id || includes visited id)) [
        | inl stop ↦ rw (stop, site_above) (inl refl)
        | inr go ↦
            rw (go, site_above)
              (climb-IsFound (site_above all edges fuel) id (ground (arith, go))
                (site_above-IsFound fuel) (parents_of edges id) (All-self (parents_of edges id))
                (id ∷ visited))
      ]
