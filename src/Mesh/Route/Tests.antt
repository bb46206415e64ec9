-- ===== src/Mesh/Route/Tests.antt =====
-- Addresses of site 7 read by nodejs/utils/mesh_route.js.
use theta_directory.Base.{codes, decimal, decimal_go, ◌≡◌, refl, ok}
use theta_directory.Mesh.Addressing.{client_ip, mesh_ip, assert_site_id, third_of, fourth_of}

device_address : client_ip 7 300 ≡ ok (codes "10.7.129.46")
unfolding client_ip assert_site_id third_of fourth_of decimal decimal_go
device_address = refl

gateway_address : mesh_ip 7 ≡ ok (codes "172.24.0.7")
unfolding mesh_ip assert_site_id decimal decimal_go
gateway_address = refl
