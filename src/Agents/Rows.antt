-- ===== src/Agents/Rows.antt =====
-- nodejs/models/agent.js: the agents and the keys to join with.
pub mod Replica
mod Tests
use theta_directory.Base.{
  ℕ, zero, suc, ◌+◌, Bool, true, false, not, ◌&&◌, ◌||◌, List, [], ◌∷◌, map, find, Option, none,
  some, eqb, leb, ltb, if◌then◌else◌, Text, ◌==◌, is_empty, or_text, codes,
}

-- A row of the table of agents; a missing binding is the empty text.
pub record AgentRow : Type 0 where
  pub id : Text
  pub name : Text
  pub token_hash : Text
  pub token_prefix : Text
  pub resource_id : Text
  pub revoked : Bool

-- A row of the table of join keys; no limit is 0.
pub record JoinKey : Type 0 where
  pub id : Text
  pub label : Text
  pub key_hash : Text
  pub key_prefix : Text
  pub revoked : Bool
  pub expires_on : ℕ
  pub max_uses : ℕ
  pub use_count : ℕ
  pub last_used_on : ℕ

-- `s.slice(0, n)`
unfoldable pub slice_to : ℕ → Text → Text
slice_to zero s = []
slice_to (suc n) [] = []
slice_to (suc n) (c ∷ s) = c ∷ slice_to n s

unfoldable pub is_expired : ℕ → JoinKey → Bool
is_expired now k = not (eqb k.expires_on 0) && ltb k.expires_on now

unfoldable pub is_used_up : JoinKey → Bool
is_used_up k = not (eqb k.max_uses 0) && leb k.max_uses k.use_count

module _ (hash : Text → Text) where
  -- `Agent.authenticate`
  unfoldable pub authenticate : List AgentRow → Text → Option AgentRow
  authenticate agents token = elim (is_empty token) [
    | true ↦ none
    | false ↦ elim (find (λ a. a.token_hash == hash token) agents) [
      | none ↦ none
      | some a ↦ if a.revoked then none else some a
    ]
  ]

  -- `rotateToken`, on the row that it is called for.
  unfoldable pub rotated : Text → AgentRow → AgentRow
  rotated token a = record a {
    token_hash = hash token;
    token_prefix = slice_to 8 token;
    revoked = false;
  }

  -- The row that `Agent.enroll` creates.
  unfoldable pub enrolled_row : Text → Text → Text → Text → AgentRow
  enrolled_row id name service_id token = record {
    id = id;
    name = or_text name (codes "theta-agent");
    token_hash = hash token;
    token_prefix = slice_to 8 token;
    resource_id = service_id;
    revoked = false;
  }

  -- `AgentJoinKey.authenticate`
  unfoldable pub authenticate_key : ℕ → List JoinKey → Text → Option JoinKey
  authenticate_key now keys raw = elim (is_empty raw) [
    | true ↦ none
    | false ↦ elim (find (λ k. k.key_hash == hash raw) keys) [
      | none ↦ none
      | some k ↦ if k.revoked || is_expired now k || is_used_up k then none else some k
    ]
  ]

-- `row.update`: the row with the id is replaced.
unfoldable pub update_agent : AgentRow → List AgentRow → List AgentRow
update_agent row agents = map (λ a. if a.id == row.id then row else a) agents

unfoldable pub update_key : JoinKey → List JoinKey → List JoinKey
update_key row keys = map (λ k. if k.id == row.id then row else k) keys

-- What a connection leaves on its key.
unfoldable pub used_key : ℕ → JoinKey → JoinKey
used_key now k = record k { use_count = k.use_count + 1; last_used_on = now }

-- `toReplica` of a join key, as the row that nodejs/routes/api_site.js makes of it where there was
-- none: the limit on its uses is not among the fields.
unfoldable pub adopted_key : JoinKey → JoinKey
adopted_key k = record {
  id = k.id;
  label = or_text k.label (codes "default");
  key_hash = k.key_hash;
  key_prefix = k.key_prefix;
  revoked = k.revoked;
  expires_on = k.expires_on;
  max_uses = 0;
  use_count = k.use_count;
  last_used_on = k.last_used_on;
}
