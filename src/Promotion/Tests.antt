-- ===== src/Promotion/Tests.antt =====
-- Two spokes with one server id, taken over by nodejs/utils/site_promote.js.
use theta_directory.Base.{true, false, [], ◌∷◌, codes, ◌≡◌, refl}
use theta_directory.Promotion.{Spoke, Fresh, server_ids, adopt_rows}
use theta_directory.Promotion.Ids.{are_apart, adopt_rows-apart}

abbrev oslo : Spoke
oslo = record {
  id = codes "s1";
  endpoint = codes "https://oslo/";
  site_slug = codes "site-oslo";
  push_token = codes "t1";
  no_inbound = false;
  mesh_ip = [];
  public_host = [];
  server_id = 2;
  last_seen_on = 0;
}

abbrev bergen : Spoke
bergen = record oslo { id = codes "s2"; endpoint = codes "https://bergen"; push_token = [] }

abbrev fresh : Fresh
fresh = record { new_id = λ endpoint. endpoint; new_token = λ endpoint. codes "t2"; now = 9 }

adopt_rows-apart_example :
    are_apart
      (server_ids (adopt_rows fresh (codes "https://hub") (oslo ∷ []) (bergen ∷ oslo ∷ [])).spokes)
    ≡ true
adopt_rows-apart_example =
    adopt_rows-apart fresh (codes "https://hub") (oslo ∷ []) (bergen ∷ oslo ∷ []) refl
