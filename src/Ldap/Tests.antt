-- ===== src/Ldap/Tests.antt =====
-- A spoke that registers while the master reconciles, for nodejs/utils/ldap_reconcile.js.
use theta_directory.Base.{
  true, false, [], ◌∷◌, Option, none, some, Text, codes, length, In, ◌≡◌, ◌≢◌, ◌↔◌, refl, is_some,
}
use theta_directory.Promotion.{Spoke}
use theta_directory.Ldap.{Desired, Site, peers_of, desired_config, persist}
use theta_directory.Ldap.Loop.{
  World, boot, change, call, fire, look, Reachable, booted, after, changes, calls, fires, looks,
}
use theta_directory.Ldap.Current.{IsCurrent, reachable-IsCurrent}
use theta_directory.Ldap.Settled.{IsSettled, reachable-IsSettled, one_pass, fire_all}
use theta_directory.Ldap.Delta.{
  Live, Modification, set_server_id, set_syncrepl, set_mirror_mode, plan,
}
use theta_directory.Ldap.Delta.Sync.{IsInSync}
use theta_directory.Ldap.Delta.Converge.{IsReplace, perform, perform-plan}
use theta_directory.Ldap.Peers.{peer_of, peers_of_iff, persist-IsRole}

-- The first pass got no view, and then a second spoke registers, before that pass has ended.
abbrev late : World
late = fire (call (codes "spoke-registered") (change (look false (fire boot))))

late-Reachable : Reachable late
late-Reachable =
    after
      (after (after (after (after booted (fires _)) (looks _ false)) (changes _))
        (calls _ (codes "spoke-registered")))
      (fires _)

reachable-IsCurrent_example : IsCurrent late
reachable-IsCurrent_example = reachable-IsCurrent late late-Reachable

-- The second pass gets a view and applies it.
reachable-IsSettled_example :
    IsSettled (one_pass (true, true) (one_pass (false, false) (fire_all (length late.due) late)))
reachable-IsSettled_example = reachable-IsSettled late (false, false) (true, true) late-Reachable

abbrev run_mod : Modification → Live → Live
run_mod (set_server_id id) l = record l { server_ids = id ∷ [] }
run_mod (set_syncrepl peers) l = record l { providers = peers }
run_mod (set_mirror_mode on) l = record l { mirror_mode = on }

run_mod-IsReplace : IsReplace run_mod
run_mod-IsReplace = record {
  server_id = λ id l. refl;
  syncrepl = λ peers l. (peers, refl, λ rid. refl);
  mirror_mode = λ on l. refl;
}

abbrev fresh_slapd : Live
fresh_slapd = record { server_ids = []; providers = []; mirror_mode = false }

abbrev two_spokes : Desired
two_spokes = record {
  server_id = 1;
  peers =
      record { server_id = 3; ldap_host = codes "ldap://10.3.0.1:389" }
      ∷ record { server_id = 2; ldap_host = codes "ldap://10.2.0.1:389" }
      ∷ [];
}

perform-plan_example :
    IsInSync (perform run_mod fresh_slapd (plan fresh_slapd two_spokes)) two_spokes
    × (plan (perform run_mod fresh_slapd (plan fresh_slapd two_spokes)) two_spokes ≡ [])
perform-plan_example = perform-plan run_mod run_mod-IsReplace fresh_slapd two_spokes

abbrev host_name : Text → Option Text
host_name endpoint = some endpoint

abbrev spoke : Spoke
spoke = record {
  id = codes "s1";
  endpoint = codes "https://denver.example.com";
  site_slug = codes "denver";
  push_token = [];
  no_inbound = false;
  mesh_ip = [];
  public_host = [];
  server_id = 2;
  last_seen_on = 0;
}

peers_of_iff_example :
    In (peer_of spoke) (peers_of host_name (spoke ∷ []))
    ↔ ((s : Spoke) × In s (spoke ∷ []) × (s.server_id ≢ 0) × (peer_of spoke ≡ peer_of s))
peers_of_iff_example = peers_of_iff host_name (spoke ∷ []) (peer_of spoke)

abbrev no_answer : Text → Text → Option Desired
no_answer url token = none

-- A site right after its installation.
abbrev fresh_site : Site
fresh_site = record {
  is_master = true;
  master_url = [];
  master_join_key = [];
  push_token = [];
  self_url = [];
  server_id = none;
  has_file = false;
}

abbrev alone : Desired
alone = record { server_id = 1; peers = [] }

told_alone : desired_config host_name (λ t. t) no_answer fresh_site [] ≡ some alone
unfolding desired_config peers_of
told_alone = refl

persist-IsRole_example :
    (fresh_site.is_master ≡ true
      → fresh_site.has_file ≡ false
      → persist alone fresh_site ≡ fresh_site)
    × (fresh_site.is_master ≡ true
        → fresh_site.has_file ≡ true
        → is_some fresh_site.server_id ≡ true
        → (persist alone fresh_site).server_id ≡ some 1)
    × (fresh_site.is_master ≡ false → (persist alone fresh_site).server_id ≡ some 1)
persist-IsRole_example = persist-IsRole host_name (λ t. t) no_answer fresh_site [] alone told_alone
