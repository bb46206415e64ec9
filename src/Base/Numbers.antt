-- ===== src/Base/Numbers.antt =====
-- Numbers as decimal texts, the first number that passes a test, and a table up to a bound.
use Prim.Native.Nat.{ℕ, zero, suc, ◌+◌, ◌*◌, ◌-◌, ◌/◌, ◌%◌, ◌<◌, ◌≤◌}
use mathlib.Core.Path.{◌≡◌}
use mathlib.Core.Logic.{inl, inr}
use mathlib.Core.Bool.{Bool, true, false, ◌&&◌}
use mathlib.Core.Option.{Option, none, some}
use mathlib.Core.List.{[], ◌∷◌}
use native.Mathlib.Omega.{arith}
use package.theta_directory.Base.Tests.{ltb, leb, if◌then◌else◌, Bool-cases}
use package.theta_directory.Base.Texts.{Text}

unfoldable pub decimal_go : ℕ → ℕ → Text → Text
decimal_go zero n acc = acc
decimal_go (suc fuel) n acc =
    let rest = decimal_go fuel (n / 10) ((b'0' + n % 10) ∷ acc) in
    if ltb n 10 then (b'0' + n) ∷ acc else rest

-- A number in a template string; a round for each digit, and there are no more digits than `n`.
unfoldable pub decimal : ℕ → Text
unfolding decimal_go
decimal n = decimal_go (suc n) n []

abbrev pub is_digit : ℕ → Bool
is_digit c = leb b'0' c && leb c b'9'

-- `Number` of a text that matches `\d+`, `none` if it does not match.
unfoldable pub digits_go : ℕ → Text → Option ℕ
digits_go n [] = some n
digits_go n (c ∷ s) =
    let rest = digits_go (n * 10 + (c - b'0')) s in if is_digit c then rest else none

unfoldable pub digits : Text → Option ℕ
unfolding digits_go
digits [] = none
digits (c ∷ s) = digits_go 0 (c ∷ s)

-- `for (i = from; rounds are left; i++) if (test(i)) return i;`
unfoldable pub first_from : (ℕ → Bool) → ℕ → ℕ → Option ℕ
first_from test zero from = none
first_from test (suc rounds) from = elim (test from) [
  | true ↦ some from
  | false ↦ first_from test rounds (from + 1)
]

module _ (test : ℕ → Bool) where
  -- The number found passes, lies in the range and is the least that passes.
  pub first_from_found :
      (rounds from n : ℕ)
      → first_from test rounds from ≡ some n
      → (test n ≡ true)
        × (from ≤ n)
        × (n < from + rounds)
        × ((m : ℕ) → from ≤ m → m < n → test m ≡ false)
  unfolding first_from
  first_from_found zero from n h = absurd (ground arith)
  first_from_found (suc rounds) from n h = elim (Bool-cases (test from)) [
    | inl passes ↦
        let same : from ≡ n = ground (arith, h) in
        (ground (arith, passes), omega arith, omega arith, λ m le lt. absurd (omega arith))
    | inr fails ↦
        let later : first_from test rounds (from + 1) ≡ some n = ground (arith, h) in
        let (ok, low, high, least) = first_from_found rounds (from + 1) n later in
        (ok, omega arith, omega arith, λ m le lt. ground (arith, fails, least m))
  ]

  pub first_from-none :
      (rounds from : ℕ)
      → first_from test rounds from ≡ none
      → (m : ℕ) → from ≤ m
      → m < from + rounds
      → test m ≡ false
  unfolding first_from
  first_from-none zero from h m le lt = absurd (omega arith)
  first_from-none (suc rounds) from h m le lt = elim (Bool-cases (test from)) [
    | inl passes ↦ absurd (ground (arith, h))
    | inr fails ↦ ground (arith, fails, first_from-none rounds (from + 1) (ground (arith, h)) m)
  ]

-- A test evaluated on every number below a bound.
unfoldable pub checks_under : (ℕ → Bool) → ℕ → Bool
checks_under test zero = true
checks_under test (suc bound) =
    let rest = checks_under test bound in if test bound then rest else false

pub checks_under-lt :
    (test : ℕ → Bool) (bound k : ℕ) → k < bound → checks_under test bound ≡ true → test k ≡ true
unfolding checks_under
checks_under-lt test zero k below passed = absurd (omega arith)
checks_under-lt test (suc bound) k below passed = ground (arith, checks_under-lt test bound k)
