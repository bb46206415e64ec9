-- ===== src/WriteProxy/Owned.antt =====
-- Which paths nodejs/middleware/spoke_write_proxy.js forwards, in words of the path itself.
use theta_directory.Base.{
  ℕ, Bool, true, false, not, ◌&&◌, ◌||◌, List, [], ◌∷◌, ◌++◌, any, none, some, eqb, eqb_iff,
  if◌then◌else◌, Text, codes, is_empty, every, starts_with, strip_prefix, split_first,
  split_first-mark, In, ◌≡◌, ◌↔◌, refl, sym, ap, ◌∙◌, ◌⊎◌, inl, inr, arith, Bool-cases,
  Option-cases, none≢some, some-injective, subst,
}
use mathlib.Core.Bool.{true≢false, false≢true}
use theta_directory.WriteProxy.{
  is_under, is_under_segment, is_password, is_node_command, forward_prefixes, is_forward_path,
  is_never_forwarded, should_forward,
}

abbrev pub no_slash : Text → Bool
no_slash segment = every (λ c. not (eqb c 47)) segment

-- The end of a path, or of one of its segments.
abbrev pub IsEnd : Text → Type 0
IsEnd rest = (rest ≡ []) ⊎ ((more : Text) × (rest ≡ codes "/" ++ more))

abbrev pub IsUnder : Text → Text → Type 0
IsUnder prefix path = (rest : Text) × (path ≡ prefix ++ rest) × IsEnd rest

-- One segment of any name, and then the given one.
abbrev pub IsUnderSegment : Text → Text → Type 0
IsUnderSegment name path =
    (segment : Text) × (rest : Text) × (path ≡ segment ++ (codes "/" ++ rest))
    × (is_empty segment ≡ false)
    × (no_slash segment ≡ true)
    × IsUnder name rest

abbrev pub IsPassword : Text → Type 0
IsPassword path =
    (rest : Text) × (path ≡ codes "/api/user/" ++ rest)
    × (IsUnder (codes "password") rest ⊎ IsUnderSegment (codes "password") rest)

abbrev pub IsCommand : Text → Type 0
IsCommand path =
    (rest : Text) × (path ≡ codes "/api/agent/nodes/" ++ rest)
    × IsUnderSegment (codes "command") rest

-- One of the areas of the master, and neither a promotion nor a command for an agent.
abbrev pub IsOwned : Text → Type 0
IsOwned path =
    (((prefix : Text) × In prefix forward_prefixes × IsUnder prefix path) ⊎ IsPassword path)
    × (IsUnder (codes "/api/directory-admin/site-promote") path → ⊥)
    × (IsCommand path → ⊥)

strip_prefix_iff : (p t rest : Text) → (strip_prefix p t ≡ some rest) ↔ (t ≡ p ++ rest)
unfolding strip_prefix
strip_prefix_iff [] t rest = (some-injective, ap some)
strip_prefix_iff (d ∷ p) [] rest = (λ e. absurd (none≢some e), λ e. absurd (ground (arith, e)))
strip_prefix_iff (d ∷ p) (c ∷ t) rest = ground (arith, eqb_iff c d, strip_prefix_iff p t rest)

end_starts :
    (c : ℕ) (rest : Text)
    → IsEnd (c ∷ rest)
    → (is_empty (c ∷ rest) || starts_with (c ∷ rest) (codes "/")) ≡ true
unfolding is_empty starts_with
end_starts c rest (inl e) = ground (arith, e)
end_starts c rest (inr (more, e)) = ground (arith, e, eqb_iff c 47)

empty_or_slash_iff :
    (rest : Text) → ((is_empty rest || starts_with rest (codes "/")) ≡ true) ↔ IsEnd rest
unfolding is_empty starts_with
empty_or_slash_iff [] = (λ e. inl refl, λ e. refl)
empty_or_slash_iff (c ∷ rest) =
    (λ e. inr (rest, ap (λ x. x ∷ rest) ((eqb_iff c 47).0 (ground (arith, e)))), end_starts c rest)

-- A test of what stands behind a prefix.
abbrev behind : Text → (Text → Bool) → Text → Bool
behind prefix p t = elim (strip_prefix prefix t) [ none ↦ false | some rest ↦ p rest ]

behind_iff :
    (prefix : Text) (p : Text → Bool) (P : Text → Type 0) (t : Text)
    → ((rest : Text) → (p rest ≡ true) ↔ P rest)
    → (behind prefix p t ≡ true) ↔ ((rest : Text) × (t ≡ prefix ++ rest) × P rest)
behind_iff prefix p P t iff = elim (Option-cases (strip_prefix prefix t)) [
  | inl absent ↦ (
    λ e. absurd (false≢true (rw (absent, behind) at e)),
    λ h. absurd (none≢some (sym absent ∙ (strip_prefix_iff prefix t h.0).1 h.1)),
  )
  | inr (rest, found) ↦ (
    λ e. (rest, (strip_prefix_iff prefix t rest).0 found, (iff rest).0 (rw (found, behind) at e)),
    λ h.
        let same : h.0 ≡ rest =
          some-injective (sym ((strip_prefix_iff prefix t h.0).1 h.1) ∙ found) in
        rw (found, behind) ((iff rest).1 (subst P same h.2)),
  )
]

or_iff :
    {P Q : Type 0} (a b : Bool) → ((a ≡ true) ↔ P) → ((b ≡ true) ↔ Q) → ((a || b) ≡ true) ↔ (P ⊎ Q)
or_iff true b f g = (λ e. inl (f.0 refl), λ h. refl)
or_iff false b f g =
    (λ e. inr (g.0 e), λ h. elim h [ inl p ↦ absurd (false≢true (f.1 p)) | inr q ↦ g.1 q ])

is_under_iff : (p t : Text) → (is_under p t ≡ true) ↔ IsUnder p t
unfolding is_under
is_under_iff p t =
    behind_iff p (λ rest. is_empty rest || starts_with rest (codes "/")) IsEnd t empty_or_slash_iff

-- A text that is cut at the first `d`.
abbrev IsCut : ℕ → Text → Text × Text → Type 0
IsCut d t parts = (t ≡ parts.0 ++ d ∷ parts.1) × (every (λ c. not (eqb c d)) parts.0 ≡ true)

split_first_sound :
    (d : ℕ) (t : Text) (parts : Text × Text) → split_first d t ≡ some parts → IsCut d t parts
unfolding split_first
split_first_sound d [] parts h = absurd (none≢some h)
split_first_sound d (c ∷ t) parts h = elim (Bool-cases (eqb c d)) [
  | inl here ↦
      let e : some ([], t) ≡ some parts = rw here at h in
      subst (IsCut d (c ∷ t)) (some-injective e) (ap (λ x. x ∷ t) ((eqb_iff c d).0 here), refl)
  | inr later ↦ elim (Option-cases (split_first d t)) [
    | inl absent ↦ absurd (none≢some (rw (later, absent) at h))
    | inr ((before, after), found) ↦
        let (same, clean) = split_first_sound d t (before, after) found in
        let e : some (c ∷ before, after) ≡ some parts = rw (later, found) at h in
        subst (IsCut d (c ∷ t)) (some-injective e)
          (ap (λ x. c ∷ x) same, ground (arith, later, clean))
  ]
]

is_under_segment_iff : (name t : Text) → (is_under_segment name t ≡ true) ↔ IsUnderSegment name t
unfolding is_under_segment
is_under_segment_iff name t = (
  λ e. elim (Option-cases (split_first 47 t)) [
    | inl absent ↦ absurd (false≢true (rw (absent, is_under_segment) at e))
    | inr ((segment, rest), found) ↦
        let (same, clean) = split_first_sound 47 t (segment, rest) found in
        let both : (not (is_empty segment) && is_under name rest) ≡ true =
          rw (found, is_under_segment) at e in
        (
          segment,
          rest,
          same,
          ground (arith, both),
          clean,
          (is_under_iff name rest).0 (ground (arith, both)),
        )
  ],
  λ h.
      let (segment, rest, same, given, clean, below) = h in
      rw (same, split_first-mark 47 segment rest clean, is_under_segment)
        (ground (arith, given, (is_under_iff name rest).1 below)),
)

is_password_iff : (t : Text) → (is_password t ≡ true) ↔ IsPassword t
unfolding is_password
is_password_iff t =
    behind_iff (codes "/api/user/")
      (λ rest. is_under (codes "password") rest || is_under_segment (codes "password") rest)
      (λ rest. IsUnder (codes "password") rest ⊎ IsUnderSegment (codes "password") rest) t
      (λ rest.
        or_iff _ _ (is_under_iff (codes "password") rest)
          (is_under_segment_iff (codes "password") rest))

is_node_command_iff : (t : Text) → (is_node_command t ≡ true) ↔ IsCommand t
unfolding is_node_command
is_node_command_iff t =
    behind_iff (codes "/api/agent/nodes/") (is_under_segment (codes "command"))
      (IsUnderSegment (codes "command")) t (is_under_segment_iff (codes "command"))

any_iff :
    {A : Type 0} (p : A → Bool) (P : A → Type 0) (xs : List A)
    → ((x : A) → (p x ≡ true) ↔ P x)
    → (any p xs ≡ true) ↔ ((x : A) × In x xs × P x)
any_iff p P [] iff = (λ e. absurd (false≢true e), λ h. absurd h.1)
any_iff p P (x ∷ xs) iff =
    let (there, back) = or_iff (p x) (any p xs) (iff x) (any_iff p P xs iff) in
    (
      λ e. elim (there e) [
        | inl here ↦ (x, inl refl, here)
        | inr (y, m, below) ↦ (y, inr m, below)
      ],
      λ h.
          let (y, m, below) = h in
          elim m [
            | inl same ↦ back (inl (subst P same below))
            | inr later ↦ back (inr (y, later, below))
          ],
    )

not_iff : {P : Type 0} (a : Bool) → ((a ≡ true) ↔ P) → (a ≡ false) ↔ (P → ⊥)
not_iff true f = (λ e. absurd (true≢false e), λ h. absurd (h (f.0 refl)))
not_iff false f = (λ e p. false≢true (f.1 p), λ h. refl)

unless_iff :
    {P Q R : Type 0} (a b c : Bool)
    → ((a ≡ false) ↔ P)
    → ((b ≡ false) ↔ Q)
    → ((c ≡ true) ↔ R)
    → ((if a || b then false else c) ≡ true) ↔ (R × P × Q)
unless_iff true b c f g k = (λ e. absurd (false≢true e), λ h. absurd (true≢false (f.1 h.1)))
unless_iff false true c f g k = (λ e. absurd (false≢true e), λ h. absurd (true≢false (g.1 h.2)))
unless_iff false false c f g k = (λ e. (k.0 e, f.0 refl, g.0 refl), λ h. k.1 h.0)

-- What is forwarded, of all paths.
pub should_forward_iff : (t : Text) → (should_forward t ≡ true) ↔ IsOwned t
unfolding should_forward is_never_forwarded is_forward_path
should_forward_iff t =
    unless_iff _ _ _ (not_iff _ (is_under_iff (codes "/api/directory-admin/site-promote") t))
      (not_iff _ (is_node_command_iff t))
      (or_iff _ _
        (any_iff (λ prefix. is_under prefix t) (λ prefix. IsUnder prefix t) forward_prefixes
          (λ prefix. is_under_iff prefix t))
        (is_password_iff t))
