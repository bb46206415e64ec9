-- ===== src/Mesh/Addressing/Tests.antt =====
-- Two devices of nodejs/utils/mesh_addressing.js.
use theta_directory.Base.{ℕ, codes, decimal, decimal_go, ◌≡◌, refl, ok}
use theta_directory.Mesh.Addressing.{client_ip, assert_site_id, third_of, fourth_of}
use theta_directory.Mesh.Addressing.Pool.{client_ip_injective}

address_300 : client_ip 7 300 ≡ ok (codes "10.7.129.46")
unfolding client_ip assert_site_id third_of fourth_of decimal decimal_go
address_300 = refl

client_ip_injective_example : ◌≡◌ {A = ℕ} 7 7 × ◌≡◌ {A = ℕ} 300 300
client_ip_injective_example =
    client_ip_injective 7 7 300 300 (codes "10.7.129.46") address_300 address_300
