-- ===== src/Catalog.antt =====
-- The resource catalog: rows, edges and what their subtypes decide.
pub mod Subtype
pub mod Projection
pub mod Matcher
pub mod Lifecycle
pub mod Rollup
pub mod Ancestors
use theta_directory.Base.{
  ℕ, Bool, true, false, ◌&&◌, List, [], Option, none, some, Text, codes, ◌==◌, is_empty,
}

pub record Interface : Type 0 where
  pub mac : Text
  pub ip : Text

-- The keys of `metadata` that the modelled code reads; an empty text stands for a missing one.
pub record Metadata : Type 0 where
  pub sub_type : Text
  pub mac_address : Text
  pub ip : Text
  pub address : Text
  pub interfaces : List Interface
  pub discovery_sources : List Text
  pub managed : Bool
  pub is_public : Bool
  pub is_current_site : Bool
  pub ssh_capable : Bool
  pub lifecycle_state : Text
  pub host_id : Text
  pub last_seen : ℕ
  pub status : Text
  pub environment : Text
  pub tags : List Text
  pub public_ip : Text
  pub service_name : Text
  pub docker_container : Text
  pub systemd_service : Text

-- Nothing is known.
abbrev pub plain_metadata : Metadata
plain_metadata = record {
  sub_type = [];
  mac_address = [];
  ip = [];
  address = [];
  interfaces = [];
  discovery_sources = [];
  managed = false;
  is_public = false;
  is_current_site = false;
  ssh_capable = false;
  lifecycle_state = [];
  host_id = [];
  last_seen = 0;
  status = [];
  environment = [];
  tags = [];
  public_ip = [];
  service_name = [];
  docker_container = [];
  systemd_service = [];
}

pub record Resource : Type 0 where
  pub id : Text
  pub kind : Text
  pub name : Text
  pub slug : Text
  pub metadata : Metadata

abbrev pub site_kind : Text
site_kind = codes "site"

abbrev pub host_kind : Text
host_kind = codes "host"

abbrev pub service_kind : Text
service_kind = codes "service"
