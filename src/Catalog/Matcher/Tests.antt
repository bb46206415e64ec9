-- ===== src/Catalog/Matcher/Tests.antt =====
-- A rediscovered printer, for nodejs/services/resource_matcher.js.
use theta_directory.Base.{
  List, [], ◌∷◌, none, some, codes, ◌==◌, includes, to_lower, trim, trim_start, trim_end, is_space,
  split, is_empty, In, ◌≡◌, refl,
}
use theta_directory.Catalog.{Resource, plain_metadata, host_kind}
use theta_directory.Catalog.Matcher.{
  Scope, find_existing_match, or_else, match_by_mac, match_by_ip, match_by_guess, macs_of, ips_of,
  unique_from, is_mac, is_present, normalize_mac, is_hex, addresses, is_ip_candidate,
  has_strong_identity, in_scope, shares_ip,
}
use theta_directory.Catalog.Matcher.Strong.{Tier, find_existing_match-Tier}

abbrev printer : Resource
printer = record {
  id = codes "r1";
  kind = host_kind;
  name = codes "printer";
  slug = codes "host_printer";
  metadata = record plain_metadata { address = codes "10.7.0.9, 10.7.0.10" };
}

-- The address belongs to a machine that has a MAC address of its own, too.
abbrev server : Resource
server = record {
  id = codes "r2";
  kind = host_kind;
  name = codes "server";
  slug = codes "host_server";
  metadata = record plain_metadata {
    mac_address = codes "aa:bb:cc:dd:ee:ff";
    ip = codes "10.7.0.9";
  };
}

abbrev seen : Resource
seen = record {
  id = [];
  kind = host_kind;
  name = codes "server";
  slug = [];
  metadata = record plain_metadata { ip = codes "10.7.0.9" };
}

abbrev pool : List Resource
pool = server ∷ printer ∷ []

abbrev scope : Scope
scope = record { site_of = none; incoming_site_id = [] }

seen_is_printer : find_existing_match seen pool scope ≡ some printer
unfolding find_existing_match or_else match_by_mac match_by_ip match_by_guess macs_of ips_of
    unique_from is_mac is_present normalize_mac is_hex addresses is_ip_candidate has_strong_identity
    in_scope shares_ip includes ◌==◌ to_lower trim trim_start trim_end is_space split is_empty
seen_is_printer = refl

find_existing_match-Tier_example : In printer pool × Tier seen pool scope printer
find_existing_match-Tier_example = find_existing_match-Tier seen pool scope printer seen_is_printer
