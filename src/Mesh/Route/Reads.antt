-- ===== src/Mesh/Route/Reads.antt =====
-- The addresses of nodejs/utils/mesh_addressing.js are recognised by nodejs/utils/mesh_route.js.
use theta_directory.Base.{
  ℕ, ◌≤◌, ◌<◌, true, not, [], ◌∷◌, ◌++◌, ◌≡◌, refl, ap, some, arith, Text, codes, ◌==◌, decimal,
  is_space, every-append, trim, trim-every, split, checks_under, checks_under-lt, ok,
}
use theta_directory.Mesh.Addressing.{
  dot, ten, mesh_prefix, mesh_ip, assert_site_id, client_ip, third_of, fourth_of, max_index,
}
use theta_directory.Mesh.Addressing.Octets.{
  digits-decimal, decimal-digits, digits-trim, split-digits, split-ten, ten-every,
}
use theta_directory.Mesh.Addressing.Pool.{pool_numbers}
use theta_directory.Mesh.Route.{in_range, is_short, id_of_parts, site_id_from}

short_table : checks_under (λ n. is_short (decimal n)) 256 ≡ true
unfolding checks_under decimal
short_table = refl

decimal-short : (n : ℕ) → n < 256 → is_short (decimal n) ≡ true
decimal-short n h = checks_under-lt (λ n. is_short (decimal n)) 256 n h short_table

trim-ten : (a b c : ℕ) → a < 256 → b < 256 → c < 256 → trim (ten a b c) ≡ ten a b c
unfolding is_space
trim-ten a b c p q r =
    trim-every (ten a b c)
      (ten-every (λ c. not (is_space c)) (λ c h. ground arith) refl a b c p q r)

ten_parts :
    (a b c : ℕ)
    → 1 ≤ a
    → a ≤ 254
    → b < 256
    → c < 256
    → id_of_parts (codes "10" ∷ decimal a ∷ decimal b ∷ decimal c ∷ []) ≡ some a
unfolding id_of_parts in_range ◌==◌
ten_parts a b c low high q r =
    rw
      (
        decimal-short a (omega arith),
        decimal-short b q,
        decimal-short c r,
        digits-decimal a (omega arith),
      )
      (ground arith)

-- Every address `10.a.b.c` with a site's number for `a` is recognised as that site's.
pub site_id_from-ten :
    (a b c : ℕ) → 1 ≤ a → a ≤ 254 → b < 256 → c < 256 → site_id_from (ten a b c) ≡ some a
unfolding site_id_from
site_id_from-ten a b c low high q r =
    rw (trim-ten a b c (omega arith) q r, split-ten a b c (omega arith) q r, site_id_from)
      (ten_parts a b c low high q r)

-- A device's address is recognised as that of its site.
pub site_id_from-client_ip :
    (site index : ℕ) (address : Text)
    → client_ip site index ≡ ok address
    → site_id_from address ≡ some site
unfolding client_ip assert_site_id
site_id_from-client_ip site index address h =
    let ranges : (1 ≤ site) × (site ≤ 254) × (1 ≤ index) × (index ≤ max_index) = ground arith in
    let written : ten site (third_of index) (fourth_of index) ≡ address = ground arith in
    let n = pool_numbers index ranges.2 ranges.3 in
    rw (← written) (
      site_id_from-ten site (third_of index) (fourth_of index) ranges.0 ranges.1 (omega arith)
        (omega arith))

abbrev gateway : ℕ → Text
gateway a = mesh_prefix ++ dot ∷ decimal a

split-gateway :
    (a : ℕ)
    → a < 256
    → split dot (gateway a) ≡ codes "172" ∷ codes "24" ∷ codes "0" ∷ decimal a ∷ []
unfolding split
split-gateway a h =
    ap (λ l. codes "172" ∷ codes "24" ∷ codes "0" ∷ l)
      (split-digits (decimal a) (decimal-digits a h))

trim-gateway : (a : ℕ) → a < 256 → trim (gateway a) ≡ gateway a
unfolding is_space
trim-gateway a h = trim-every (gateway a) (
    every-append (λ c. not (is_space c)) mesh_prefix (dot ∷ decimal a) refl
      (digits-trim (decimal a) (decimal-digits a h)))

gateway_parts :
    (a : ℕ)
    → 1 ≤ a
    → a ≤ 254
    → id_of_parts (codes "172" ∷ codes "24" ∷ codes "0" ∷ decimal a ∷ []) ≡ some a
unfolding id_of_parts in_range ◌==◌
gateway_parts a low high =
    rw (decimal-short a (omega arith), digits-decimal a (omega arith)) (ground arith)

-- The address of a site's gateway is recognised as that of the site.
pub site_id_from-mesh_ip :
    (a : ℕ) (address : Text) → mesh_ip a ≡ ok address → site_id_from address ≡ some a
unfolding mesh_ip assert_site_id site_id_from
site_id_from-mesh_ip a address h =
    let range : (1 ≤ a) × (a ≤ 254) = ground arith in
    let written : gateway a ≡ address = ground arith in
    rw (← written, trim-gateway a (omega arith), split-gateway a (omega arith), site_id_from)
      (gateway_parts a range.0 range.1)
