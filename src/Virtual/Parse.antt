-- ===== src/Virtual/Parse.antt =====
-- The names that nodejs/utils/groups.js builds are read back by `parseGroupCn`.
use theta_directory.Base.{
  ℕ, [], ◌∷◌, ◌++◌, ◌≡◌, refl, ◌⊎◌, inl, inr, none, some, arith, if◌then◌else◌, Text, codes,
  starts_with, strip_prefix, split_last, All, is_some, List, ◌==◌, Option-cases, ◌∙◌,
}
use theta_directory.Groups.{
  admin, host, app, underscore, resource_cn, aggregate_cn, site_super_admin_cns,
}
use theta_directory.Groups.Slug.{IsPlain}
use theta_directory.Virtual.{
  kind_at, kinds, find_kind, parse_resource, parse_found, parse_group_cn, site_wide, site,
}

-- A prefix that ends in its only underscore does not reach behind the first one of the text.
strip_prefix_plain :
    (k s t : Text)
    → IsPlain k
    → is_some (strip_prefix (k ++ underscore ∷ []) (s ++ underscore ∷ t))
      ≡ is_some (strip_prefix (k ++ underscore ∷ []) (s ++ underscore ∷ []))
unfolding strip_prefix
strip_prefix_plain [] [] t h = refl
strip_prefix_plain [] (d ∷ s) t h = ground arith
strip_prefix_plain (c ∷ k) [] t h = ground arith
strip_prefix_plain (c ∷ k) (d ∷ s) t h = ground (arith, strip_prefix_plain k s t h.1)

abbrev ArePlain : List Text → Type 0
ArePlain = All IsPlain

kind_at-none :
    (ks : List Text) (c : ℕ) (s t : Text)
    → ArePlain ks
    → kind_at ks (c ∷ (s ++ underscore ∷ [])) ≡ none
    → kind_at ks (c ∷ (s ++ underscore ∷ t)) ≡ none
unfolding kind_at strip_prefix
kind_at-none [] c s t h e = refl
kind_at-none (k ∷ ks) c s t h e =
    ground (arith, strip_prefix_plain k s t h.0, kind_at-none ks c s t h.1)

-- The site's name cannot be taken for one with a kind in it.
abbrev pub IsSite : Text → Type 0
IsSite s = find_kind (s ++ underscore ∷ []) ≡ none

kinds-ArePlain : ArePlain kinds
kinds-ArePlain = omega arith

find_kind-IsSite :
    (s t k rest : Text)
    → IsSite s
    → find_kind (underscore ∷ t) ≡ some ([], k, rest)
    → find_kind (s ++ underscore ∷ t) ≡ some (s, k, rest)
unfolding find_kind
find_kind-IsSite [] t k rest h e = e
find_kind-IsSite (c ∷ s) t k rest h e =
    elim (Option-cases (kind_at kinds (c ∷ (s ++ underscore ∷ [])))) [
      | inl here ↦
          let tail : IsSite s = ground (arith, here) in
          ground (
            arith,
            kind_at-none kinds c s t kinds-ArePlain here,
            find_kind-IsSite s t k rest tail e,
          )
      | inr (m, here) ↦ ground (arith, here)
    ]

-- What `lastIndexOf` finds behind a text that has no underscore, in a text with one.
split_last-IsPlain : (q t : Text) → IsPlain t → split_last (underscore ∷ q) t ≡ none
unfolding split_last starts_with
split_last-IsPlain q [] h = refl
split_last-IsPlain q (c ∷ t) h = ground (arith, split_last-IsPlain q t h.1)

split_last-mark :
    (q slug t : Text)
    → IsPlain slug
    → IsPlain t
    → split_last (underscore ∷ q) (slug ++ underscore ∷ t)
      ≡ (if starts_with t q then some (slug, underscore ∷ t) else none)
unfolding split_last starts_with
split_last-mark q [] t h k = rw (split_last-IsPlain q t k) (ground arith)
split_last-mark q (c ∷ slug) t h k = ground (arith, split_last-mark q slug t h.1 k)

parse_resource-plain :
    (s kind slug level : Text)
    → IsPlain slug
    → IsPlain level
    → parse_resource s kind (slug ++ underscore ∷ level)
      ≡ some (record { site = s; kind = kind; slug = some slug; level = level })
unfolding parse_resource starts_with
parse_resource-plain s kind slug level h k = ground (
  arith,
  split_last-mark (codes "access") slug level h k,
  split_last-mark (codes "admin") slug level h k,
  split_last-mark [] slug level h k,
)

found_resource :
    (kind t : Text)
    → (kind ≡ host) ⊎ (kind ≡ app)
    → find_kind (underscore ∷ (kind ++ underscore ∷ t)) ≡ some ([], kind, t)
unfolding find_kind kind_at strip_prefix
found_resource kind t (inl e) = rw e
found_resource kind t (inr e) = rw e

parse_found_resource :
    (s kind t : Text)
    → (kind ≡ host) ⊎ (kind ≡ app)
    → parse_found s kind t ≡ parse_resource s kind t
unfolding parse_found ◌==◌
parse_found_resource s kind t (inl e) = rw e
parse_found_resource s kind t (inr e) = rw e

-- The name of the group of one host or app is read back as the four parts that it was built from,
-- whatever the level, if no kind can be read into the site and slug and level hold no underscore.
pub parse_group_cn-resource_cn :
    (s kind slug level : Text)
    → IsSite s
    → (kind ≡ host) ⊎ (kind ≡ app)
    → IsPlain slug
    → IsPlain level
    → parse_group_cn (resource_cn s kind slug level)
      ≡ some (record { site = s; kind = kind; slug = some slug; level = level })
unfolding parse_group_cn
parse_group_cn-resource_cn s kind slug level h k p q =
    rw
      (
        find_kind-IsSite s _ kind _ h (found_resource kind (slug ++ underscore ∷ level) k),
        parse_group_cn,
      )
      (parse_found_resource s kind _ k ∙ parse_resource-plain s kind slug level p q)

-- The kind's plural, as it stands in an aggregate's name.
abbrev plural : Text → Text
plural kind = kind ++ b's' ∷ []

found_aggregate :
    (kind t : Text)
    → (kind ≡ host) ⊎ (kind ≡ app)
    → find_kind (underscore ∷ (kind ++ b's' ∷ underscore ∷ t)) ≡ some ([], plural kind, t)
unfolding find_kind kind_at strip_prefix
found_aggregate kind t (inl e) = rw e
found_aggregate kind t (inr e) = rw e

parse_found_aggregate :
    (s kind t : Text)
    → (kind ≡ host) ⊎ (kind ≡ app)
    → parse_found s (plural kind) t ≡ some (site_wide s kind t)
unfolding parse_found ◌==◌
parse_found_aggregate s kind t (inl e) = rw e
parse_found_aggregate s kind t (inr e) = rw e

-- The name of the group of all hosts or apps of a site is read back as the site, the kind and the
-- level, whatever the level, if no kind can be read into the site.
pub parse_group_cn-aggregate_cn :
    (s kind level : Text)
    → IsSite s
    → (kind ≡ host) ⊎ (kind ≡ app)
    → parse_group_cn (aggregate_cn s kind level) ≡ some (site_wide s kind level)
unfolding parse_group_cn
parse_group_cn-aggregate_cn s kind level h k =
    rw (find_kind-IsSite s _ (plural kind) level h (found_aggregate kind level k), parse_group_cn)
      (parse_found_aggregate s kind level k)

found_super : find_kind (codes "_super_admin") ≡ some ([], codes "super", admin)
unfolding find_kind kind_at strip_prefix
found_super = refl

parse_found_super : (s : Text) → parse_found s (codes "super") admin ≡ some (site_wide s site admin)
unfolding parse_found ◌==◌
parse_found_super s = refl

-- The name of the group of a site's administrators is read back as the level `admin` of the kind
-- `site`, if no kind can be read into the site.
pub parse_group_cn-site_super_admin_cns :
    (s : Text) → IsSite s → parse_group_cn (site_super_admin_cns s) ≡ some (site_wide s site admin)
unfolding parse_group_cn site_super_admin_cns
parse_group_cn-site_super_admin_cns s h =
    rw (find_kind-IsSite s _ (codes "super") admin h found_super, parse_group_cn)
      (parse_found_super s)
