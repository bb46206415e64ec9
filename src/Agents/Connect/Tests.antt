-- ===== src/Agents/Connect/Tests.antt =====
-- A machine that joins with a key beside an agent that is enrolled, for nodejs/routes/api_agent.js.
use theta_directory.Base.{
  false, true, [], ◌∷◌, Text, codes, or_text, In, ◌≡◌, ◌≢◌, refl, inl, inr, arith,
}
use theta_directory.Catalog.{Resource, plain_metadata, site_kind}
use theta_directory.Agents.Rows.{AgentRow, JoinKey}
use theta_directory.Agents.Connect.{World, Request, Fresh, connect, prev_token_of}
use theta_directory.Agents.Connect.Keep.{connect-keeps}

abbrev plain_hash : Text → Text
plain_hash t = t

abbrev enrolled : AgentRow
enrolled = record {
  id = codes "a1";
  name = codes "box";
  token_hash = codes "secret";
  token_prefix = codes "secret";
  resource_id = [];
  revoked = false;
}

abbrev key : JoinKey
key = record {
  id = codes "k1";
  label = codes "lab";
  key_hash = codes "tjk";
  key_prefix = codes "tjk";
  revoked = false;
  expires_on = 0;
  max_uses = 0;
  use_count = 0;
  last_used_on = 0;
}

abbrev oslo : Resource
oslo = record {
  id = codes "s1";
  kind = site_kind;
  name = codes "Oslo";
  slug = codes "site_oslo";
  metadata = record plain_metadata { is_current_site = true };
}

abbrev world : World
world = record {
  agents = enrolled ∷ [];
  keys = key ∷ [];
  estate = record { resources = oslo ∷ []; edges = [] };
}

-- It calls itself like the machine that is enrolled, and does not know its token.
abbrev request : Request
request = record {
  query_token = codes "tjk";
  authorization = [];
  hostname = codes "box";
  site_hint = [];
  prev_header = [];
  prev_query = codes "guess";
}

abbrev fresh : Fresh
fresh = record {
  fails = λ call. false;
  token = codes "new";
  agent_id = codes "a2";
  host_id = codes "h2";
  service_id = codes "x2";
  default_name = codes "agent-1";
}

only_row : (o : AgentRow) → In o world.agents → o.id ≡ enrolled.id → o ≡ enrolled
only_row o (inl same) e = same
only_row o (inr none_left) e = absurd none_left

other_token : codes "secret" ≢ codes "guess"
other_token h = ground arith

connect-keeps_example : In enrolled (connect plain_hash 9 fresh request world).1.agents
unfolding prev_token_of or_text
connect-keeps_example =
    connect-keeps plain_hash 9 fresh request world enrolled (inl refl) only_row other_token
