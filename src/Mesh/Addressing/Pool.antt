-- ===== src/Mesh/Addressing/Pool.antt =====
-- The client pool of nodejs/utils/mesh_addressing.js.
use theta_directory.Base.{ℕ, ◌+◌, ◌-◌, ◌*◌, ◌≤◌, ◌≡◌, arith, Text, ok}
use theta_directory.Mesh.Addressing.{assert_site_id, client_ip, third_of, fourth_of, max_index, ten}
use theta_directory.Mesh.Addressing.Octets.{ten_injective}

pub pool_numbers :
    (index : ℕ)
    → 1 ≤ index
    → index ≤ max_index
    → (128 ≤ third_of index)
      × (third_of index ≤ 255)
      × (1 ≤ fourth_of index)
      × (fourth_of index ≤ 254)
      × (index ≡ (third_of index - 128) * 254 + fourth_of index)
unfolding third_of fourth_of
pool_numbers index low high = omega arith

-- An index of the pool of a site has an address in the upper half of the site's network, whose last
-- number is neither 0 nor 255.
pub client_ip_range :
    (site index : ℕ)
    → 1 ≤ site
    → site ≤ 254
    → 1 ≤ index
    → index ≤ max_index
    → (third : ℕ) × (fourth : ℕ) × (client_ip site index ≡ ok (ten site third fourth))
      × (128 ≤ third)
      × (third ≤ 255)
      × (1 ≤ fourth)
      × (fourth ≤ 254)
unfolding client_ip assert_site_id
client_ip_range site index s0 s1 i0 i1 =
    let (t0, t1, f0, f1, e) = pool_numbers index i0 i1 in
    (third_of index, fourth_of index, ground arith, t0, t1, f0, f1)

-- Two devices have one address only if they have one site and one index.
pub client_ip_injective :
    (s t i j : ℕ) (a : Text) → client_ip s i ≡ ok a → client_ip t j ≡ ok a → (s ≡ t) × (i ≡ j)
unfolding client_ip assert_site_id
client_ip_injective s t i j a h k =
    let si : (1 ≤ s) × (s ≤ 254) × (1 ≤ i) × (i ≤ max_index) = ground arith in
    let tj : (1 ≤ t) × (t ≤ 254) × (1 ≤ j) × (j ≤ max_index) = ground arith in
    let same : ten s (third_of i) (fourth_of i) ≡ ten t (third_of j) (fourth_of j) = ground arith in
    let ni = pool_numbers i si.2 si.3 in
    let nj = pool_numbers j tj.2 tj.3 in
    let (es, e3, e4) =
      ten_injective s (third_of i) (fourth_of i) t (third_of j) (fourth_of j) (omega arith)
        (omega arith) (omega arith) (omega arith) (omega arith) (omega arith) same in
    (es, ground (arith, e3, e4, ni, nj))
