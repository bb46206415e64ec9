-- ===== src/Groups/Slug.antt =====
-- Slugs of nodejs/utils/groups.js.
use theta_directory.Base.{
  Bool, true, false, not, [], ◌∷◌, ◌≡◌, refl, ◌≢◌, ◌⊎◌, inl, inr, arith, Text, to_lower, is_empty,
  All,
}
use theta_directory.Groups.{is_alnum, squash, trim_left, trim_right, slugify, dash, underscore}

-- No two dashes in a row; the flag says that the character before was a dash.
abbrev Squashed : Bool → Text → Type 0
Squashed run [] = Unit
Squashed run (c ∷ s) =
    ((is_alnum c ≡ true) × Squashed false s) ⊎ ((c ≡ dash) × (run ≡ false) × Squashed true s)

-- The same, and the last character is no dash.
abbrev pub Tidy : Bool → Text → Type 0
Tidy run [] = run ≡ false
Tidy run (c ∷ s) = ((is_alnum c ≡ true) × Tidy false s) ⊎ ((c ≡ dash) × (run ≡ false) × Tidy true s)

-- The empty text, or words of `[a-z0-9]` with single dashes between them.
abbrev pub IsSlug : Text → Type 0
IsSlug s = (s ≡ []) ⊎ Tidy true s

squash-Squashed : (run : Bool) (s : Text) → Squashed run (squash run s)
unfolding squash
squash-Squashed run [] = tt
squash-Squashed run (c ∷ s) = ground (arith, squash-Squashed (not (is_alnum c)) s)

trim_left-Squashed : (run : Bool) (s : Text) → Squashed run s → Squashed true (trim_left s)
unfolding trim_left is_alnum
trim_left-Squashed run [] h = tt
trim_left-Squashed run (c ∷ s) h = ground (arith, trim_left-Squashed true s)

trim_right-Tidy :
    (run : Bool) (s : Text) → Squashed run s → (trim_right s ≡ []) ⊎ Tidy run (trim_right s)
unfolding trim_right is_alnum is_empty
trim_right-Tidy run [] h = inl refl
trim_right-Tidy run (c ∷ s) (inl (a, k)) = ground (arith, trim_right-Tidy false s k)
trim_right-Tidy run (c ∷ s) (inr (e, f, k)) = ground (arith, trim_right-Tidy true s k)

-- Every result of `slugify` is a slug.
pub slugify-IsSlug : (name : Text) → IsSlug (slugify name)
unfolding slugify
slugify-IsSlug name =
    trim_right-Tidy true _ (trim_left-Squashed false _ (squash-Squashed false (to_lower name)))

to_lower-Tidy : (run : Bool) (s : Text) → Tidy run s → to_lower s ≡ s
unfolding to_lower is_alnum
to_lower-Tidy run [] h = refl
to_lower-Tidy run (c ∷ s) (inl (a, k)) = ground (arith, to_lower-Tidy false s k)
to_lower-Tidy run (c ∷ s) (inr (e, f, k)) = ground (arith, to_lower-Tidy true s k)

squash-Tidy : (run : Bool) (s : Text) → Tidy run s → squash run s ≡ s
unfolding squash is_alnum
squash-Tidy run [] h = refl
squash-Tidy run (c ∷ s) (inl (a, k)) = ground (arith, squash-Tidy false s k)
squash-Tidy run (c ∷ s) (inr (e, f, k)) = ground (arith, squash-Tidy true s k)

squash_first : (s : Text) → Tidy true s → squash false s ≡ s
unfolding squash is_alnum
squash_first [] h = refl
squash_first (c ∷ s) (inl (a, k)) = ground (arith, squash-Tidy false s k)
squash_first (c ∷ s) (inr h) = cc

trim_left-Tidy : (s : Text) → Tidy true s → trim_left s ≡ s
unfolding trim_left is_alnum
trim_left-Tidy [] h = refl
trim_left-Tidy (c ∷ s) h = ground arith

trim_right-Tidy' : (run : Bool) (s : Text) → Tidy run s → trim_right s ≡ s
unfolding trim_right is_alnum is_empty
trim_right-Tidy' run [] h = refl
trim_right-Tidy' run (c ∷ s) (inl (a, k)) = ground (arith, trim_right-Tidy' false s k)
trim_right-Tidy' run (c ∷ []) (inr (e, f, k)) = cc
trim_right-Tidy' run (c ∷ d ∷ s) (inr (e, f, k)) = ground (arith, trim_right-Tidy' true (d ∷ s) k)

pub slugify-IsSlug' : (s : Text) → IsSlug s → slugify s ≡ s
unfolding slugify squash trim_left trim_right to_lower
slugify-IsSlug' s (inl e) = rw e
slugify-IsSlug' s (inr h) =
    unfold slugify in
    rw (to_lower-Tidy true s h, squash_first s h, trim_left-Tidy s h, trim_right-Tidy' true s h)

-- A second `slugify` changes nothing.
pub slugify_idempotent : (name : Text) → slugify (slugify name) ≡ slugify name
slugify_idempotent name = slugify-IsSlug' _ (slugify-IsSlug name)

-- No underscore.
abbrev pub IsPlain : Text → Type 0
IsPlain = All (λ c. c ≢ underscore)

Tidy-IsPlain : (run : Bool) (s : Text) → Tidy run s → IsPlain s
unfolding is_alnum
Tidy-IsPlain run [] h = tt
Tidy-IsPlain run (c ∷ s) (inl (a, k)) = (ground arith, Tidy-IsPlain false s k)
Tidy-IsPlain run (c ∷ s) (inr (e, f, k)) = (ground arith, Tidy-IsPlain true s k)

pub IsSlug-IsPlain : (s : Text) → IsSlug s → IsPlain s
IsSlug-IsPlain s (inl e) = rw e tt
IsSlug-IsPlain s (inr h) = Tidy-IsPlain true s h

pub slugify-IsPlain : (name : Text) → IsPlain (slugify name)
slugify-IsPlain name = IsSlug-IsPlain _ (slugify-IsSlug name)
