-- ===== src/Base/Lists.antt =====
-- Lists under native numbers, and predicates on lists by recursion.
use Prim.Native.Nat.{ℕ, suc, ◌+◌, ◌≤◌}
use mathlib.Core.Path.{◌≡◌, refl, sym, subst}
use mathlib.Core.Logic.{◌⊎◌, inl, inr}
use mathlib.Core.Bool.{Bool, true, false, ◌&&◌, ◌||◌}
use mathlib.Core.Option.{Option, none, some}
use mathlib.Core.List.{List, [], ◌∷◌, ◌++◌}
use native.Mathlib.Omega.{arith}
use package.theta_directory.Base.Tests.{Bool-cases, none≢some, some-injective, if◌then◌else◌}

module _ {ℓ} {A : Type ℓ} where
  abbrev pub length : List A → ℕ
  length [] = 0
  length (x ∷ xs) = suc (length xs)

  abbrev pub head? : List A → Option A
  head? [] = none
  head? (x ∷ xs) = some x

  -- `xs.some(p)`.
  abbrev pub any : (A → Bool) → List A → Bool
  any p [] = false
  any p (x ∷ xs) = p x || any p xs

  -- `xs.every(p)`.
  abbrev pub all : (A → Bool) → List A → Bool
  all p [] = true
  all p (x ∷ xs) = p x && all p xs

  -- `xs.find(p)`.
  abbrev pub find : (A → Bool) → List A → Option A
  find p [] = none
  find p (x ∷ xs) = elim (p x) [ true ↦ some x | false ↦ find p xs ]

  -- `xs.filter(p)`.
  abbrev pub filter : (A → Bool) → List A → List A
  filter p [] = []
  filter p (x ∷ xs) = let rest = filter p xs in elim (p x) [ true ↦ x ∷ rest | false ↦ rest ]

  pub length-append : (xs ys : List A) → length (xs ++ ys) ≡ length xs + length ys
  length-append [] ys = omega arith
  length-append (x ∷ xs) ys = omega (arith, length-append xs ys)

module _ {ℓ} {A : Type ℓ} where
  pub List-cases : (xs : List A) → (xs ≡ []) ⊎ ((x : A) × (rest : List A) × (xs ≡ x ∷ rest))
  List-cases [] = inl refl
  List-cases (x ∷ xs) = inr (x, xs, refl)

  pub nil_of_length : (xs : List A) → length xs ≤ 0 → xs ≡ []
  nil_of_length [] h = refl
  nil_of_length (x ∷ xs) h = absurd (omega arith)

module _ {ℓ κ} {A : Type ℓ} (P : A → Type κ) where
  -- `P` holds of each element.
  abbrev pub All : List A → Type κ
  All [] = Unit
  All (x ∷ xs) = P x × All xs

  pub All-append : (xs ys : List A) → All xs → All ys → All (xs ++ ys)
  All-append [] ys h k = k
  All-append (x ∷ xs) ys (p, h) k = (p, All-append xs ys h k)

pub All-if {ℓ κ} :
    {A : Type ℓ} (P : A → Type κ) (b : Bool) (xs ys : List A)
    → All P xs
    → All P ys
    → All P (if b then xs else ys)
All-if P true xs ys h k = h
All-if P false xs ys h k = k

pub All-weaken {ℓ κ κ'} :
    {A : Type ℓ} (P : A → Type κ) (Q : A → Type κ') (xs : List A)
    → ((x : A) → P x → Q x)
    → All P xs
    → All Q xs
All-weaken P Q [] f h = tt
All-weaken P Q (x ∷ xs) f (p, h) = (f x p, All-weaken P Q xs f h)

-- Membership by recursion.
abbrev pub In : {A : Type 0} → A → List A → Type 0
In a [] = ⊥
In a (x ∷ xs) = (a ≡ x) ⊎ In a xs

pub All-In {κ} : {A : Type 0} (P : A → Type κ) (xs : List A) (a : A) → All P xs → In a xs → P a
All-In P [] a h k = absurd k
All-In P (x ∷ xs) a (p, h) (inl e) = subst P (sym e) p
All-In P (x ∷ xs) a (p, h) (inr k) = All-In P xs a h k

pub In-append_left : {A : Type 0} (a : A) (xs ys : List A) → In a xs → In a (xs ++ ys)
In-append_left a [] ys h = absurd h
In-append_left a (x ∷ xs) ys (inl e) = inl e
In-append_left a (x ∷ xs) ys (inr h) = inr (In-append_left a xs ys h)

pub In-append_right : {A : Type 0} (a : A) (xs ys : List A) → In a ys → In a (xs ++ ys)
In-append_right a [] ys h = h
In-append_right a (x ∷ xs) ys h = inr (In-append_right a xs ys h)

pub In-append : {A : Type 0} (a : A) (xs ys : List A) → In a (xs ++ ys) → In a xs ⊎ In a ys
In-append a [] ys h = inr h
In-append a (x ∷ xs) ys (inl e) = inl (inl e)
In-append a (x ∷ xs) ys (inr h) = elim (In-append a xs ys h) [ inl k ↦ inl (inr k) | inr k ↦ inr k ]

-- Each element is one.
pub All-self : {A : Type 0} (xs : List A) → All (λ x. In x xs) xs
All-self [] = tt
All-self (x ∷ xs) =
    (inl refl, All-weaken (λ y. In y xs) (λ y. In y (x ∷ xs)) xs (λ y h. inr h) (All-self xs))

module _ {A : Type 0} (p : A → Bool) where
  pub find-In : (xs : List A) (x : A) → find p xs ≡ some x → In x xs × (p x ≡ true)
  find-In [] x h = absurd (none≢some h)
  find-In (y ∷ ys) x h = elim (Bool-cases (p y)) [
    | inl hit ↦
        let same : y ≡ x = some-injective (rw (hit, find) at h) in
        (inl (sym same), subst (λ z. p z ≡ true) same hit)
    | inr miss ↦ let (m, passes) = find-In ys x (rw (miss, find) at h) in (inr m, passes)
  ]

  pub find-none : (xs : List A) (x : A) → find p xs ≡ none → In x xs → p x ≡ false
  find-none (y ∷ ys) x h here = elim (Bool-cases (p y)) [
    | inl hit ↦ absurd (none≢some (sym (rw (hit, find) at h)))
    | inr miss ↦ elim here [
      | inl same ↦ subst (λ z. p z ≡ false) (sym same) miss
      | inr deep ↦ find-none ys x (rw (miss, find) at h) deep
    ]
  ]
  find-none [] x h none_left = absurd none_left

  pub filter-In : (xs : List A) (x : A) → In x (filter p xs) → In x xs × (p x ≡ true)
  filter-In [] x h = absurd h
  filter-In (y ∷ ys) x h = elim (Bool-cases (p y)) [
    | inr miss ↦ let (m, passes) = filter-In ys x (rw (miss, filter) at h) in (inr m, passes)
    | inl hit ↦
        let found : (x ≡ y) ⊎ In x (filter p ys) = rw (hit, filter) at h in
        elim found [
          | inl e ↦ (inl e, subst (λ z. p z ≡ true) (sym e) hit)
          | inr m ↦ let (n, passes) = filter-In ys x m in (inr n, passes)
        ]
  ]

  pub In-filter : (xs : List A) (x : A) → In x xs → p x ≡ true → In x (filter p xs)
  In-filter [] x m h = absurd m
  In-filter (y ∷ ys) x (inl e) h = rw (subst (λ z. p z ≡ true) e h, filter) (inl e)
  In-filter (y ∷ ys) x (inr m) h = elim (Bool-cases (p y)) [
    | inl hit ↦ rw (hit, filter) (inr (In-filter ys x m h))
    | inr miss ↦ rw (miss, filter) (In-filter ys x m h)
  ]

  pub All-filter_self : (xs : List A) → All (λ x. p x ≡ true) (filter p xs)
  All-filter_self [] = tt
  All-filter_self (y ∷ ys) = elim (Bool-cases (p y)) [
    | inl hit ↦ rw (hit, filter) (hit, All-filter_self ys)
    | inr miss ↦ rw (miss, filter) (All-filter_self ys)
  ]

  pub All-filter : (P : A → Type 0) (xs : List A) → All P xs → All P (filter p xs)
  All-filter P [] h = tt
  All-filter P (y ∷ ys) (q, h) = elim (Bool-cases (p y)) [
    | inl hit ↦ rw (hit, filter) (q, All-filter P ys h)
    | inr miss ↦ rw (miss, filter) (All-filter P ys h)
  ]
