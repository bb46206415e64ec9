-- ===== src/Agents/Connect/Issue.antt =====
-- The token that nodejs/routes/api_agent.js issues is the agent's from then on.
use theta_directory.Base.{Bool, List, In, Option, none, some, Text, ◌==◌, Result, ok, err, ◌≡◌, ◌≢◌}
use theta_directory.Agents.Rows.{AgentRow, authenticate}
use theta_directory.Agents.Connect.{World, Rejection}

abbrev has_hash : Text → AgentRow → Bool
has_hash h a = a.token_hash == h

-- No agent has the token.
abbrev pub IsUnused : Text → List AgentRow → Type 0
IsUnused h agents = (a : AgentRow) → In a agents → a.token_hash ≢ h

-- The token that is issued authenticates as the agent.
abbrev pub IsGood : (Text → Text) → Result Rejection (AgentRow × Option Text) × World → Type 0
IsGood hash (err e, after) = Unit
IsGood hash (ok (a, none), after) = Unit
IsGood hash (ok (a, some token), after) = authenticate hash after.agents token ≡ some a
