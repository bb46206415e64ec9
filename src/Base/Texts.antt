-- ===== src/Base/Texts.antt =====
-- JavaScript strings: sequences of UTF-16 code units, as lists of numbers.
use Prim.Native.Nat.{ℕ, ◌+◌}
use Prim.Native.Char.{code}
use Prim.Native.String.{String}
use mathlib.Core.Path.{◌≡◌, refl}
use mathlib.Core.Logic.{◌↔◌}
use mathlib.Core.Bool.{Bool, true, false, not, ◌&&◌, ◌||◌}
use mathlib.Core.Option.{Option, none, some}
use mathlib.Core.List.{List, [], ◌∷◌, ◌++◌}
use native.Mathlib.Omega.{arith}
use package.theta_directory.Base.Tests.{leb, eqb, if◌then◌else◌}

abbrev pub Text : Type 0
Text = List ℕ

-- A literal, within ASCII.
abbrev pub codes : String → Text
codes String.[] = []
codes (String.◌∷◌ c s) = code c ∷ codes s

-- `s === t`.
infix 50 ◌==◌
unfoldable pub ◌==◌ : Text → Text → Bool
[] == [] = true
[] == (d ∷ t) = false
(c ∷ s) == [] = false
(c ∷ s) == (d ∷ t) = eqb c d && s == t

pub eq_refl : (s : Text) → (s == s) ≡ true
unfolding ◌==◌
eq_refl [] = refl
eq_refl (c ∷ s) = ground (arith, eq_refl s)

pub eq_sound : (s t : Text) → (s == t) ≡ true → s ≡ t
unfolding ◌==◌
eq_sound [] [] h = refl
eq_sound [] (d ∷ t) h = cc
eq_sound (c ∷ s) [] h = cc
eq_sound (c ∷ s) (d ∷ t) h = ground (arith, eq_sound s t)

pub eq_iff : (s t : Text) → ((s == t) ≡ true) ↔ (s ≡ t)
eq_iff s t = (eq_sound s t, λ e. rw e (eq_refl t))

-- `xs.includes(t)` and `set.has(t)`.
unfoldable pub includes : List Text → Text → Bool
includes [] t = false
includes (x ∷ xs) t = x == t || includes xs t

-- `s.startsWith(p)`.
unfoldable pub starts_with : Text → Text → Bool
starts_with s [] = true
starts_with [] (d ∷ p) = false
starts_with (c ∷ s) (d ∷ p) = eqb c d && starts_with s p

-- `s.endsWith(p)`.
unfoldable pub ends_with : Text → Text → Bool
ends_with [] p = [] == p
ends_with (c ∷ s) p = (c ∷ s) == p || ends_with s p

-- `s.toLowerCase()`, within ASCII.
unfoldable pub to_lower : Text → Text
to_lower [] = []
to_lower (c ∷ s) = (if leb b'A' c && leb c b'Z' then c + 32 else c) ∷ to_lower s

unfoldable pub is_empty : Text → Bool
is_empty [] = true
is_empty (c ∷ s) = false

-- `s || d`: the empty string is falsy.
unfoldable pub or_text : Text → Text → Text
or_text [] d = d
or_text (c ∷ s) d = c ∷ s

-- The rest of `s` behind the prefix `p`.
unfoldable pub strip_prefix : Text → Text → Option Text
strip_prefix [] s = some s
strip_prefix (d ∷ p) [] = none
strip_prefix (d ∷ p) (c ∷ s) = elim (eqb c d) [ true ↦ strip_prefix p s | false ↦ none ]

-- `s.lastIndexOf(p)`, as the parts before the last occurrence and from it on.
unfoldable pub split_last : Text → Text → Option (Text × Text)
split_last p [] = none
split_last p (c ∷ s) = elim (split_last p s) [
  | some (before, from) ↦ some (c ∷ before, from)
  | none ↦ if starts_with (c ∷ s) p then some ([], c ∷ s) else none
]

-- `s.indexOf(mark)` and the two slices around it.
unfoldable pub split_first : ℕ → Text → Option (Text × Text)
split_first mark [] = none
split_first mark (c ∷ cs) = if eqb c mark then some ([], cs) else elim (split_first mark cs) [
  | none ↦ none
  | some (before, after) ↦ some (c ∷ before, after)
]

-- The white space of `trim`.
unfoldable pub is_space : ℕ → Bool
is_space c =
    (leb 9 c && leb c 13)
    || eqb c 32
    || eqb c 0xa0
    || eqb c 0x1680
    || (leb 0x2000 c && leb c 0x200a)
    || eqb c 0x2028
    || eqb c 0x2029
    || eqb c 0x202f
    || eqb c 0x205f
    || eqb c 0x3000
    || eqb c 0xfeff

unfoldable pub trim_start : Text → Text
trim_start [] = []
trim_start (c ∷ s) = let rest = trim_start s in if is_space c then rest else c ∷ s

unfoldable pub trim_end : Text → Text
trim_end [] = []
trim_end (c ∷ s) = let rest = trim_end s in if is_space c && is_empty rest then [] else c ∷ rest

-- `s.trim()`
unfoldable pub trim : Text → Text
unfolding trim_start trim_end is_empty
trim s = trim_end (trim_start s)

abbrev put_first : ℕ → List Text → List Text
put_first c [] = (c ∷ []) ∷ []
put_first c (x ∷ xs) = (c ∷ x) ∷ xs

-- `s.split(d)` at a single character.
unfoldable pub split : ℕ → Text → List Text
split d [] = [] ∷ []
split d (c ∷ s) = let rest = split d s in if eqb c d then [] ∷ rest else put_first c rest

-- No character of the text fails the test.
abbrev pub every : (ℕ → Bool) → Text → Bool
every p [] = true
every p (c ∷ s) = p c && every p s

pub every-append :
    (p : ℕ → Bool) (s t : Text) → every p s ≡ true → every p t ≡ true → every p (s ++ t) ≡ true
every-append p [] t h k = k
every-append p (c ∷ s) t h k = ground (arith, every-append p s t)

pub every-weaken :
    (p q : ℕ → Bool) (s : Text)
    → ((c : ℕ) → p c ≡ true → q c ≡ true)
    → every p s ≡ true
    → every q s ≡ true
every-weaken p q [] f h = refl
every-weaken p q (c ∷ s) f h = ground (arith, f c, every-weaken p q s f)

pub split-free : (d : ℕ) (s : Text) → every (λ c. not (eqb c d)) s ≡ true → split d s ≡ s ∷ []
unfolding split
split-free d [] h = refl
split-free d (c ∷ s) h = ground (arith, split-free d s)

pub split-mark :
    (d : ℕ) (s t : Text)
    → every (λ c. not (eqb c d)) s ≡ true
    → split d (s ++ d ∷ t) ≡ s ∷ split d t
unfolding split
split-mark d [] t h = ground arith
split-mark d (c ∷ s) t h = ground (arith, split-mark d s t)

trim_start-every : (s : Text) → every (λ c. not (is_space c)) s ≡ true → trim_start s ≡ s
unfolding trim_start
trim_start-every [] h = refl
trim_start-every (c ∷ s) h = ground arith

trim_end-every : (s : Text) → every (λ c. not (is_space c)) s ≡ true → trim_end s ≡ s
unfolding trim_end
trim_end-every [] h = refl
trim_end-every (c ∷ s) h = ground (arith, trim_end-every s)

pub trim-every : (s : Text) → every (λ c. not (is_space c)) s ≡ true → trim s ≡ s
unfolding trim
trim-every s h = rw (trim_start-every s h) (trim_end-every s h)

pub split_first-mark :
    (mark : ℕ) (s t : Text)
    → every (λ c. not (eqb c mark)) s ≡ true
    → split_first mark (s ++ mark ∷ t) ≡ some (s, t)
unfolding split_first
split_first-mark mark [] t h = ground arith
split_first-mark mark (c ∷ s) t h = ground (arith, split_first-mark mark s t)
