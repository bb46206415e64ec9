-- ===== src/Agents/Connect/Admit.antt =====
-- Whom nodejs/routes/api_agent.js admits as an agent.
use theta_directory.Base.{
  ℕ, false, not, ◌&&◌, find-In, In, Option, none, some, Text, ◌==◌, is_empty, trim, Result, ok, err,
  ◌≡◌, ◌⊎◌, inl, inr, arith, Bool-cases, none≢some,
}
use theta_directory.Inheritance.{Edge}
use theta_directory.Catalog.{Resource}
use theta_directory.Agents.Binding.{Estate}
use theta_directory.Agents.Rows.{AgentRow, JoinKey, authenticate_key}
use theta_directory.Agents.Connect.{
  World, Request, Fresh, Rejection, unauthorized, site_not_found, no_current_site,
  prev_token_required, unavailable, token_of, prev_token_of, existing_agent,
}

-- An agent of the table that is not revoked, and whose token this is.
abbrev pub IsHolder : (Text → Text) → World → Text → AgentRow → Type 0
IsHolder hash w token a =
    In a w.agents × (a.revoked ≡ false) × (is_empty token ≡ false) × (a.token_hash ≡ hash token)

-- Rows and edges may have been added, and none is lost.
abbrev pub Grows : Estate → Estate → Type 0
Grows e after =
    ((r : Resource) → In r e.resources → In r after.resources)
    × ((d : Edge) → In d e.edges → In d after.edges)

module _ (hash : Text → Text) (now : ℕ) (fresh : Fresh) (q : Request) (w : World) where
  -- What a join key gives: a new agent, or a new token for one whose token was shown.
  abbrev pub IsIssued : AgentRow → Option Text → Type 0
  IsIssued a issued =
      (issued ≡ some fresh.token)
      × (a.token_hash ≡ hash fresh.token)
      × (((old : AgentRow) × (old.id ≡ a.id) × IsHolder hash w (prev_token_of q) old)
          ⊎ ((a.id ≡ fresh.agent_id) × (existing_agent w.agents (trim q.hostname) ≡ none)))

  -- Where the database failed, no agent and no key was changed; each other rejection changes nothing.
  abbrev pub IsRefused : Rejection → World → Type 0
  IsRefused unauthorized after = after ≡ w
  IsRefused (site_not_found hint) after = after ≡ w
  IsRefused no_current_site after = after ≡ w
  IsRefused prev_token_required after = after ≡ w
  IsRefused unavailable after =
      (after.agents ≡ w.agents) × (after.keys ≡ w.keys) × Grows w.estate after.estate

  abbrev IsJoin : Result Rejection (AgentRow × Option Text) × World → Type 0
  IsJoin (err e, after) = IsRefused e after
  IsJoin (ok (a, issued), after) = IsIssued a issued

  -- The agent that is admitted showed its own token, or came with a key that is good.
  abbrev pub IsAdmission : Result Rejection (AgentRow × Option Text) × World → Type 0
  IsAdmission (err e, after) = IsRefused e after
  IsAdmission (ok (a, issued), after) =
      (IsHolder hash w (token_of q) a × (issued ≡ none) × (after ≡ w))
      ⊎ (((key : JoinKey) × (authenticate_key hash now w.keys (token_of q) ≡ some key))
          × IsIssued a issued)

  pub existing-In :
      (old : AgentRow)
      → existing_agent w.agents (trim q.hostname) ≡ some old
      → In old w.agents × (old.revoked ≡ false)
  unfolding existing_agent
  existing-In old h = elim (Bool-cases (is_empty (trim q.hostname))) [
    | inl empty ↦ absurd (none≢some (rw (empty, existing_agent) at h))
    | inr full ↦
        let hit =
          find-In (λ a. a.name == trim q.hostname && not a.revoked) w.agents old
            (rw (full, existing_agent) at h) in
        (hit.0, ground (arith, hit.1))
  ]
