-- ===== src/Mesh/Client/Tests.antt =====
-- One device and its exit, for nodejs/utils/mesh_clients.js.
use theta_directory.Base.{
  true, [], ◌∷◌, none, some, codes, ◌==◌, includes, is_empty, or_text, trim, trim_start, trim_end,
  decimal, decimal_go, first_from, ◌≡◌, refl, ok,
}
use theta_directory.Mesh.Addressing.{client_ip, assert_site_id, third_of, fourth_of}
use theta_directory.Mesh.Roster.{blank}
use theta_directory.Mesh.Client.{
  MeshClient, Store, Enrolment, Fresh, taken_at, is_free, next_free_ip, choose_key, enroll_locked,
  enroll, revoke_exit,
}
use theta_directory.Mesh.Client.Enroll.{IsValid, enroll-IsValid}

abbrev phone : MeshClient
phone = record {
  id = codes "c1";
  uid = codes "ada";
  name = codes "phone";
  site_id = 7;
  assigned_ip = codes "10.7.128.1";
  public_key = codes "K1";
  exit_site_id = some 2;
  source = codes "manual";
  agent_id = none;
  created_at = 5;
  last_seen_at = 0;
}

abbrev empty : Store
empty = record { clients = []; grants = []; sites = blank 2 ∷ [] }

abbrev granted : Store
granted = record {
  clients = phone ∷ [];
  grants =
      record {
        id = codes "g1";
        uid = codes "ada";
        site_id = 2;
        granted_by = codes "bob";
        created_at = 1;
      }
      ∷ [];
  sites = [];
}

next_is_2 : next_free_ip (phone ∷ []) 7 ≡ ok (codes "10.7.128.2")
unfolding next_free_ip first_from is_free taken_at includes ◌==◌ client_ip assert_site_id third_of
    fourth_of decimal decimal_go
next_is_2 = refl

abbrev enrolment : Enrolment
enrolment = record {
  uid = codes "ada";
  name = codes "phone";
  site_id = 7;
  public_key = [];
  source = [];
  agent_id = none;
}

abbrev fresh : Fresh
fresh = record {
  id = codes "c1";
  keys = record { public_key = codes "K1"; private_key = codes "S1" };
  now = 5;
}

abbrev with_phone : Store
with_phone = record empty { clients = record phone { exit_site_id = none } ∷ [] }

phone_enrolled :
    enroll empty enrolment fresh
    ≡ ok (with_phone, record phone { exit_site_id = none }, some (codes "S1"))
unfolding enroll choose_key enroll_locked is_empty trim trim_start trim_end next_free_ip first_from
    is_free taken_at includes ◌==◌ client_ip assert_site_id third_of fourth_of decimal decimal_go
    or_text
phone_enrolled = refl

enroll-IsValid_example : IsValid with_phone
enroll-IsValid_example =
    enroll-IsValid empty enrolment fresh with_phone (record phone { exit_site_id = none })
      (some (codes "S1")) (record { pooled = tt; apart = tt }) phone_enrolled

grant_revoked : (revoke_exit granted (codes "ada") 2).1 ≡ true
unfolding revoke_exit ◌==◌
grant_revoked = refl
