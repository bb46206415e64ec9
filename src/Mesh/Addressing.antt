-- ===== src/Mesh/Addressing.antt =====
-- nodejs/utils/mesh_addressing.js
pub mod Octets
pub mod Pool
mod Tests
use theta_directory.Base.{
  ℕ, ◌+◌, ◌-◌, ◌*◌, ◌/◌, ◌%◌, Bool, true, false, ◌&&◌, ◌||◌, not, List, [], ◌∷◌, ◌++◌, map, Option,
  none, some, any, length, if◌then◌else◌, ltb, leb, eqb, Text, codes, decimal, trim, split,
  is_empty, Result, ok, err, ◌>>=◌,
}

pub data Fault : Type 0 where
  bad_site bad_index bad_slot : ℕ → Fault

abbrev pub max_site_id : ℕ
max_site_id = 254

abbrev pub min_site_id : ℕ
min_site_id = 1

abbrev pub mesh_prefix : Text
mesh_prefix = codes "172.24.0"

abbrev pub dot : ℕ
dot = b'.'

unfoldable pub assert_site_id : ℕ → Result Fault ℕ
assert_site_id id = if ltb id min_site_id || ltb max_site_id id then err (bad_site id) else ok id

unfoldable pub mesh_address : ℕ → Result Fault Text
mesh_address site = do
  id ← assert_site_id site
  ok (mesh_prefix ++ dot ∷ (decimal id ++ codes "/32"))

unfoldable pub mesh_ip : ℕ → Result Fault Text
mesh_ip site = do id ← assert_site_id site; ok (mesh_prefix ++ dot ∷ decimal id)

unfoldable pub site_cidr : ℕ → Result Fault Text
site_cidr site = do id ← assert_site_id site; ok (codes "10." ++ decimal id ++ codes ".0.0/16")

unfoldable pub site_gateway_ip : ℕ → Result Fault Text
site_gateway_ip site = do id ← assert_site_id site; ok (codes "10." ++ decimal id ++ codes ".0.1")

unfoldable pub site_service_ip : ℕ → ℕ → Result Fault Text
site_service_ip site offset = do
  id ← assert_site_id site
  ok (codes "10." ++ decimal id ++ codes ".0." ++ decimal offset)

unfoldable pub client_pool_cidr : ℕ → Result Fault Text
client_pool_cidr site = do
  id ← assert_site_id site
  ok (codes "10." ++ decimal id ++ codes ".128.0/17")

-- `10.a.b.c`, three numbers in a template.
abbrev pub ten : ℕ → ℕ → ℕ → Text
ten a b c = codes "10." ++ (decimal a ++ dot ∷ (decimal b ++ dot ∷ decimal c))

abbrev pub usable_per_octet : ℕ
usable_per_octet = 254

abbrev pub max_index : ℕ
max_index = 128 * usable_per_octet

-- The third and the fourth number of the address of an index.
unfoldable pub third_of : ℕ → ℕ
third_of index = 128 + (index - 1) / usable_per_octet

unfoldable pub fourth_of : ℕ → ℕ
fourth_of index = (index - 1) % usable_per_octet + 1

unfoldable pub client_ip : ℕ → ℕ → Result Fault Text
client_ip site index = do
  id ← assert_site_id site
  if ltb index 1 || ltb max_index index
      then err (bad_index index)
      else ok (ten site (third_of index) (fourth_of index))

abbrev pub is_slot : ℕ → Bool
is_slot slot = eqb slot 168 || eqb slot 172

unfoldable pub shadow_cidr : ℕ → ℕ → Result Fault Text
shadow_cidr site slot = do
  id ← assert_site_id site
  if is_slot slot
      then ok (codes "10." ++ (decimal site ++ dot ∷ (decimal slot ++ codes ".0/24")))
      else err (bad_slot slot)

unfoldable pub peer_allowed_ips : ℕ → Result Fault (List Text)
peer_allowed_ips site = do
  id ← assert_site_id site
  cidr ← site_cidr site
  ok ((mesh_prefix ++ dot ∷ (decimal id ++ codes "/32")) ∷ cidr ∷ [])

abbrev pub hub_allowed_ips : List Text
hub_allowed_ips = codes "10.0.0.0/8" ∷ codes "172.24.0.0/16" ∷ []

-- JavaScript's `Number` on a text, where it gives an integer that is not negative.
module _ (number : Text → Option ℕ) where
  abbrev same_number : Option ℕ → Option ℕ → Bool
  same_number (some a) (some b) = eqb a b
  same_number _ _ = false

  abbrev is_octet : Option ℕ → Bool
  is_octet none = false
  is_octet (some o) = leb o 255

  -- The tests on the two lists of octets, behind those on their lengths.
  unfoldable pub shadow_host : ℕ → ℕ → List (Option ℕ) → List (Option ℕ) → Option Text
  shadow_host site slot (h0 ∷ h1 ∷ h2 ∷ some h3 ∷ []) (b0 ∷ b1 ∷ b2 ∷ b3 ∷ []) =
      if is_octet h0
        && is_octet h1
        && is_octet h2
        && leb h3 255
        && same_number h0 b0
        && same_number h1 b1
        && same_number h2 b2
      then some (ten site slot h3)
      else none
  shadow_host site slot _ _ = none

  -- `const [base, bits] = cidr.split('/')`; further parts are dropped.
  unfoldable pub shadow_parts : ℕ → ℕ → Text → List Text → Option Text
  shadow_parts site slot host (base ∷ bits ∷ more) =
      if is_empty host || is_empty base || not (same_number (number bits) (some 24))
      then none
      else shadow_host site slot (map number (split dot host)) (map number (split dot base))
  shadow_parts site slot host _ = none

  unfoldable pub shadow_for : ℕ → Text → Text → ℕ → Result Fault (Option Text)
  shadow_for site physical_host physical_cidr slot = do
    id ← assert_site_id site
    ok (shadow_parts site slot (trim physical_host) (split b'/' physical_cidr))
