-- ===== src/Agents/Connect.antt =====
-- The connection of an agent in nodejs/routes/api_agent.js, and `Agent.enroll` of
-- nodejs/models/agent.js.
pub mod Admit
pub mod Keep
pub mod Issue
mod Tests
use theta_directory.Base.{
  ℕ, Bool, true, false, not, ◌&&◌, ◌||◌, List, [], ◌∷◌, ◌++◌, map, find, Option, none, some,
  if◌then◌else◌, Text, codes, ◌==◌, is_empty, or_text, trim, Result, ok, err,
}
use theta_directory.Groups.{slugify}
use theta_directory.Inheritance.{Edge}
use theta_directory.Catalog.{Resource, plain_metadata, host_kind}
use theta_directory.Agents.Binding.{
  Estate, Call, find_agent, find_key, list_agents, create_host, link_host, create_agent,
  update_agent_row, update_key_row, create_below, find_host_at_site, ensure_agent_service,
}
use theta_directory.Agents.Site.{is_no_hint, resolve_site_hint, current_site}
use theta_directory.Agents.Rows.{
  AgentRow, JoinKey, authenticate, authenticate_key, rotated, enrolled_row, update_agent,
  update_key, used_key,
}

pub record World : Type 0 where
  pub agents : List AgentRow
  pub keys : List JoinKey
  pub estate : Estate

-- What the request carries; a missing value is the empty text.
pub record Request : Type 0 where
  pub query_token : Text
  pub authorization : Text
  pub hostname : Text
  pub site_hint : Text
  pub prev_header : Text
  pub prev_query : Text

-- The random and the clock's values that a connection may use, and which calls of the database fail.
pub record Fresh : Type 0 where
  pub fails : Call → Bool
  pub token : Text
  pub agent_id : Text
  pub host_id : Text
  pub service_id : Text
  pub default_name : Text

-- Why the socket is closed.
pub data Rejection : Type 0 where
  unauthorized : Rejection
  site_not_found : Text → Rejection
  no_current_site : Rejection
  prev_token_required : Rejection
  unavailable : Rejection

unfoldable pub token_of : Request → Text
token_of q = or_text q.query_token q.authorization

unfoldable pub prev_token_of : Request → Text
prev_token_of q = or_text q.prev_header q.prev_query

-- The host row that an enrolment creates.
unfoldable pub new_host : Text → Text → Resource
new_host id name = record {
  id = id;
  kind = host_kind;
  name = or_text name (codes "Theta Agent Host");
  slug =
      codes "host-" ++ or_text (slugify (or_text name (codes "theta-agent"))) (codes "theta-agent");
  metadata = record plain_metadata { sub_type = codes "linux"; managed = true };
}

-- The host of that name at the site, or a new one; none where the call throws.
unfoldable pub place_host : Fresh → Estate → Text → Text → Option Resource × Estate
place_host fresh e site_id name = elim (find_host_at_site e site_id name) [
  | some h ↦ (some h, e)
  | none ↦ create_below fresh.fails create_host link_host site_id (new_host fresh.host_id name) e
]

unfoldable pub existing_agent : List AgentRow → Text → Option AgentRow
existing_agent agents hostname = elim (is_empty hostname) [
  | true ↦ none
  | false ↦ find (λ a. a.name == hostname && not a.revoked) agents
]

unfoldable pub site_for : List Resource → Text → Option Resource
site_for all hint = if is_no_hint hint then current_site all else resolve_site_hint all hint

module _ (hash : Text → Text) (now : ℕ) where
  -- The end of `Agent.enroll`: the row, bound to the service. An error is caught by the connection.
  unfoldable pub add_agent :
      Fresh
      → World
      → Text
      → Option Resource × Estate
      → Result Rejection (AgentRow × Option Text) × World
  add_agent fresh w name (none, e) = (err unavailable, record w { estate = e })
  add_agent fresh w name (some service, e) =
      let row = enrolled_row hash fresh.agent_id name service.id fresh.token in
      if fresh.fails create_agent
      then (err unavailable, record w { estate = e })
      else (ok (row, some fresh.token), record w { agents = w.agents ++ row ∷ []; estate = e })

  unfoldable pub bind_agent :
      Fresh
      → World
      → Text
      → Option Resource × Estate
      → Result Rejection (AgentRow × Option Text) × World
  bind_agent fresh w name (none, e) = (err unavailable, record w { estate = e })
  bind_agent fresh w name (some h, e) =
      add_agent fresh w name (ensure_agent_service fresh.fails fresh.service_id e h)

  -- `Agent.enroll` at a site.
  unfoldable pub enroll :
      Fresh → World → Text → Text → Result Rejection (AgentRow × Option Text) × World
  enroll fresh w site_id name = bind_agent fresh w name (place_host fresh w.estate site_id name)

  -- A host that is enrolled shows the token that it has, and gets a new one.
  unfoldable pub rejoin :
      Fresh → Request → World → AgentRow → Result Rejection (AgentRow × Option Text) × World
  rejoin fresh q w old =
      let row = rotated hash fresh.token old in
      if not (not (is_empty (prev_token_of q)) && old.token_hash == hash (prev_token_of q))
      then (err prev_token_required, w)
      else if fresh.fails update_agent_row
      then (err unavailable, w)
      else (ok (row, some fresh.token), record w { agents = update_agent row w.agents })

  -- An error of the count is swallowed.
  unfoldable pub count_use :
      Fresh
      → JoinKey
      → Result Rejection (AgentRow × Option Text) × World
      → Result Rejection (AgentRow × Option Text) × World
  count_use fresh key (ok a, w) =
      if fresh.fails update_key_row
      then (ok a, w)
      else (ok a, record w { keys = update_key (used_key now key) w.keys })
  count_use fresh key (err e, w) = (err e, w)

  -- Behind the site: the agent that is enrolled under the name, or a new one.
  unfoldable pub join_at :
      Fresh → Request → World → Resource → Result Rejection (AgentRow × Option Text) × World
  join_at fresh q w site =
      let hostname = trim q.hostname in
      if not (is_empty hostname) && fresh.fails list_agents
      then (err unavailable, w)
      else elim (existing_agent w.agents hostname) [
        | some old ↦ rejoin fresh q w old
        | none ↦ enroll fresh w site.id (or_text hostname fresh.default_name)
      ]

  -- The token is a join key.
  unfoldable pub join : Fresh → Request → World → Result Rejection (AgentRow × Option Text) × World
  join fresh q w =
      let hint = trim q.site_hint in
      elim (site_for w.estate.resources hint) [
        | none ↦ (err (if is_no_hint hint then no_current_site else site_not_found hint), w)
        | some site ↦ join_at fresh q w site
      ]

  unfoldable pub by_key :
      Fresh → Request → World → Result Rejection (AgentRow × Option Text) × World
  by_key fresh q w =
      if not (is_empty (token_of q)) && fresh.fails find_key
      then (err unavailable, w)
      else elim (authenticate_key hash now w.keys (token_of q)) [
        | none ↦ (err unauthorized, w)
        | some key ↦ count_use fresh key (join fresh q w)
      ]

  -- The socket is admitted as an agent, with the token that it is issued, or closed. What throws is
  -- caught, and closes it as `unavailable`; what was written before that stays.
  unfoldable pub connect :
      Fresh → Request → World → Result Rejection (AgentRow × Option Text) × World
  connect fresh q w =
      if not (is_empty (token_of q)) && fresh.fails find_agent
      then (err unavailable, w)
      else elim (authenticate hash w.agents (token_of q)) [
        | some a ↦ (ok (a, none), w)
        | none ↦ by_key fresh q w
      ]
