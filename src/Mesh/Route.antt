-- ===== src/Mesh/Route.antt =====
-- nodejs/utils/mesh_route.js
pub mod Reads
mod Tests
use theta_directory.Base.{
  ℕ, Bool, ◌&&◌, ◌||◌, List, [], ◌∷◌, Option, none, some, if◌then◌else◌, ltb, leb, Text, codes,
  ◌==◌, length, every, is_digit, digits, trim, split, Result, ok, err, ◌>>=◌,
}
use theta_directory.Mesh.Addressing.{Fault, dot, max_site_id, min_site_id, site_service_ip}

abbrev pub directory_port : ℕ
directory_port = 3001

unfoldable pub in_range : Option ℕ → Option ℕ
in_range none = none
in_range (some id) = if ltb id min_site_id || ltb max_site_id id then none else some id

-- `\d{1,3}`
abbrev pub is_short : Text → Bool
is_short s = leb 1 (length s) && leb (length s) 3 && every is_digit s

-- The two patterns, `172.24.0.x` and `10.x.y.z`, on the parts between the dots.
unfoldable pub id_of_parts : List Text → Option ℕ
id_of_parts (a ∷ b ∷ c ∷ d ∷ []) =
    if a == codes "172" && b == codes "24" && c == codes "0" && is_short d
    then in_range (digits d)
    else if a == codes "10" && is_short b && is_short c && is_short d
    then in_range (digits b)
    else none
id_of_parts _ = none

unfoldable pub site_id_from : Text → Option ℕ
site_id_from address = id_of_parts (split dot (trim address))

pub record ServiceTarget : Type 0 where
  pub host : Text
  pub port : ℕ
  pub site : ℕ

unfoldable pub mesh_service_target : Text → Result Fault (Option ServiceTarget)
mesh_service_target address = elim (site_id_from address) [
  | none ↦ ok none
  | some id ↦ site_service_ip id 2 >>= λ host.
      ok (some (record { host = host; port = directory_port; site = id }))
]
