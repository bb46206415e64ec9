-- ===== src/Mesh/Addressing/Octets.antt =====
-- Addresses as nodejs/utils/mesh_addressing.js prints them, read back number by number.
use theta_directory.Base.{
  ℕ, ◌<◌, Bool, true, false, not, ◌&&◌, [], ◌∷◌, ◌++◌, ◌≡◌, refl, ap, ◌∙◌, sym, none, some, arith,
  eqb, Text, codes, decimal, digits, split, split-free, split-mark, every, every-weaken,
  every-append, is_space, checks_under, checks_under-lt, is_digit,
}
use theta_directory.Mesh.Addressing.{dot, ten}

-- Only digits, and the number itself when read back.
abbrev reads_back : ℕ → Bool
reads_back n =
    every is_digit (decimal n) && (elim (digits (decimal n)) [ none ↦ false | some m ↦ eqb m n ])

octets_table : checks_under reads_back 256 ≡ true
unfolding checks_under decimal digits
octets_table = refl

octet_reads_back : (n : ℕ) → n < 256 → reads_back n ≡ true
octet_reads_back n h = checks_under-lt reads_back 256 n h octets_table

pub digits-decimal : (n : ℕ) → n < 256 → digits (decimal n) ≡ some n
digits-decimal n h = ground (arith, octet_reads_back n h)

pub decimal-digits : (n : ℕ) → n < 256 → every is_digit (decimal n) ≡ true
decimal-digits n h = ground (arith, octet_reads_back n h)

-- Digits are no separators and no spaces.
pub digits-free :
    (d : ℕ) (s : Text)
    → is_digit d ≡ false
    → every is_digit s ≡ true
    → every (λ c. not (eqb c d)) s ≡ true
digits-free d s f = every-weaken is_digit (λ c. not (eqb c d)) s (λ c h. ground (arith, f))

pub digits-trim : (s : Text) → every is_digit s ≡ true → every (λ c. not (is_space c)) s ≡ true
unfolding is_space
digits-trim s = every-weaken is_digit (λ c. not (is_space c)) s (λ c h. ground arith)

pub split-digits : (s : Text) → every is_digit s ≡ true → split dot s ≡ s ∷ []
split-digits s h = split-free dot s (digits-free dot s refl h)

pub split-append :
    (s t : Text) → every is_digit s ≡ true → split dot (s ++ dot ∷ t) ≡ s ∷ split dot t
split-append s t h = split-mark dot s t (digits-free dot s refl h)

pub decimal_injective : (a b : ℕ) → a < 256 → b < 256 → decimal a ≡ decimal b → a ≡ b
decimal_injective a b p q h = cc (digits-decimal a p, digits-decimal b q, ap digits h)

module _ (q : ℕ → Bool) (of_digit : (c : ℕ) → is_digit c ≡ true → q c ≡ true)
    (of_dot : q dot ≡ true) where
  decimal-every : (n : ℕ) → n < 256 → every q (decimal n) ≡ true
  decimal-every n h = every-weaken is_digit q (decimal n) of_digit (decimal-digits n h)

  -- What digits and dots pass, an address passes.
  pub ten-every : (a b c : ℕ) → a < 256 → b < 256 → c < 256 → every q (ten a b c) ≡ true
  ten-every a b c r s t = ground (
    arith,
    of_digit b'1',
    of_digit b'0',
    of_dot,
    every-append q (decimal a) (dot ∷ (decimal b ++ dot ∷ decimal c)),
    every-append q (decimal b) (dot ∷ decimal c),
    decimal-every a,
    decimal-every b,
    decimal-every c,
  )

-- The four parts of an address.
pub split-ten :
    (a b c : ℕ)
    → a < 256
    → b < 256
    → c < 256
    → split dot (ten a b c) ≡ codes "10" ∷ decimal a ∷ decimal b ∷ decimal c ∷ []
unfolding split
split-ten a b c p q r =
    ap (λ l. codes "10" ∷ l)
      (split-append (decimal a) _ (decimal-digits a p)
        ∙ ap (λ l. decimal a ∷ l)
            (split-append (decimal b) _ (decimal-digits b q)
              ∙ ap (λ l. decimal b ∷ l) (split-digits (decimal c) (decimal-digits c r))))

-- Different numbers give different addresses.
pub ten_injective :
    (a b c x y z : ℕ)
    → a < 256
    → b < 256
    → c < 256
    → x < 256
    → y < 256
    → z < 256
    → ten a b c ≡ ten x y z
    → (a ≡ x) × (b ≡ y) × (c ≡ z)
ten_injective a b c x y z p q r s t u h =
    let parts : codes "10" ∷ decimal a ∷ decimal b ∷ decimal c ∷ []
        ≡ codes "10" ∷ decimal x ∷ decimal y ∷ decimal z ∷ [] =
      sym (split-ten a b c p q r) ∙ ap (split dot) h ∙ split-ten x y z s t u in
    (
      decimal_injective a x p s (cc parts),
      decimal_injective b y q t (cc parts),
      decimal_injective c z r u (cc parts),
    )
