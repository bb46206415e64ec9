-- ===== src/Agents/Rows/Tests.antt =====
-- A key for one use, for nodejs/models/agent.js.
use theta_directory.Base.{true, false, [], ◌∷◌, some, none, Text, codes, is_empty, ◌≡◌, refl}
use theta_directory.Agents.Rows.{JoinKey, is_expired, is_used_up, authenticate_key, adopted_key}
use theta_directory.Agents.Rows.Replica.{adopted_key-unlimited}

abbrev plain_hash : Text → Text
plain_hash t = t

abbrev spent : JoinKey
spent = record {
  id = codes "k1";
  label = codes "lab";
  key_hash = codes "tjk_1";
  key_prefix = codes "tjk_1";
  revoked = false;
  expires_on = 0;
  max_uses = 1;
  use_count = 1;
  last_used_on = 5;
}

current : is_expired 9 spent ≡ false
unfolding is_expired
current = refl

used : is_used_up spent ≡ true
unfolding is_used_up
used = refl

adopted_key-unlimited_example :
    (authenticate_key plain_hash 9 (spent ∷ []) (codes "tjk_1") ≡ none)
    × (authenticate_key plain_hash 9 (adopted_key spent ∷ []) (codes "tjk_1")
        ≡ some (adopted_key spent))
unfolding is_empty
adopted_key-unlimited_example =
    adopted_key-unlimited plain_hash 9 spent (codes "tjk_1") refl refl refl current used
