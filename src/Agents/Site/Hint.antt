-- ===== src/Agents/Site/Hint.antt =====
-- A hint in nodejs/utils/agent_site.js is read up to case, dashes and spaces around it.
use theta_directory.Base.{
  Bool, true, false, ◌||◌, List, ◌++◌, find, Text, codes, ◌==◌, eq_iff, trim, ◌≡◌, refl, ap, sym,
  ◌∙◌, arith, Bool-cases, inl, inr, ◌∷◌, [],
}
use theta_directory.Catalog.{Resource}
use theta_directory.Agents.Site.{
  normalize_site_key, is_no_hint, bare_key, fits_hint, sites_of, resolve_site_hint,
}

-- What is left of the test: the key of the hint.
fits_key : Text → Resource → Bool
fits_key key s =
    normalize_site_key s.id == key
    || normalize_site_key s.slug == key
    || normalize_site_key s.slug == (codes "site_" ++ bare_key key)
    || normalize_site_key s.name == key
    || normalize_site_key s.name == bare_key key

same_key : (a b : Text) → (a == b) ≡ true → (normalize_site_key a == normalize_site_key b) ≡ true
same_key a b h = (eq_iff _ _).1 (ap normalize_site_key ((eq_iff a b).0 h))

fits_hint_key :
    (wanted : Text) (s : Resource) → fits_hint wanted s ≡ fits_key (normalize_site_key wanted) s
unfolding fits_hint fits_key
fits_hint_key wanted s =
    ground (arith, same_key s.id wanted, same_key s.slug wanted, same_key s.name wanted)

find_same :
    (p q : Resource → Bool) (rs : List Resource)
    → ((r : Resource) → p r ≡ q r)
    → find p rs ≡ find q rs
find_same p q [] h = refl
find_same p q (r ∷ rs) h = elim (Bool-cases (q r)) [
  | inl hit ↦ rw (h r, hit, find) refl
  | inr miss ↦ rw (h r, miss, find) (find_same p q rs h)
]

-- Two hints that name a site, and differ only in case, in `-` for `_` and in the spaces around them,
-- name the same one.
pub resolve_site_hint-same :
    (all : List Resource) (a b : Text)
    → is_no_hint (trim a) ≡ false
    → is_no_hint (trim b) ≡ false
    → normalize_site_key (trim a) ≡ normalize_site_key (trim b)
    → resolve_site_hint all a ≡ resolve_site_hint all b
unfolding resolve_site_hint
resolve_site_hint-same all a b h k same =
    rw (h, k)
      (find_same (fits_hint (trim a)) (fits_hint (trim b)) (sites_of all) (λ s.
        fits_hint_key (trim a) s
        ∙ (ap (λ key. fits_key key s) same ∙ sym (fits_hint_key (trim b) s))))
