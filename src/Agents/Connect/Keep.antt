-- ===== src/Agents/Connect/Keep.antt =====
-- What a connection in nodejs/routes/api_agent.js leaves of the agents.
use theta_directory.Base.{
  ℕ, not, ◌&&◌, List, [], ◌∷◌, In, In-append_left, Option, none, some, or_text, if_elim, Text, ◌==◌,
  eq_iff, is_empty, trim, Result, ok, err, ◌≡◌, ◌≢◌, refl, sym, ◌∙◌, ap, inl, inr, arith,
  Option-cases,
}
use theta_directory.Catalog.{Resource}
use theta_directory.Agents.Binding.{
  Estate, find_agent, find_key, list_agents, create_agent, update_agent_row, update_key_row,
  ensure_agent_service,
}
use theta_directory.Agents.Rows.{
  AgentRow, JoinKey, authenticate, authenticate_key, rotated, update_agent,
}
use theta_directory.Agents.Connect.{
  World, Request, Fresh, Rejection, prev_token_required, unavailable, token_of, prev_token_of,
  existing_agent, site_for, place_host, add_agent, bind_agent, enroll, rejoin, count_use, join_at,
  join, by_key, connect,
}
use theta_directory.Agents.Connect.Admit.{existing-In}

update_agent-In :
    (new row : AgentRow) (agents : List AgentRow)
    → In row agents
    → row.id ≢ new.id
    → In row (update_agent new agents)
unfolding update_agent
update_agent-In new row [] none_left other = none_left
update_agent-In new row (a ∷ agents) (inl same) other = inl (
    if_elim (λ b. row ≡ b) (a.id == new.id) new a
      (λ hit. absurd (other (ap (λ b. b.id) same ∙ (eq_iff a.id new.id).0 hit))) (λ miss. same))
update_agent-In new row (a ∷ agents) (inr below) other =
    inr (update_agent-In new row agents below other)

-- The rows of a result.
abbrev HoldsRow : AgentRow → Result Rejection (AgentRow × Option Text) × World → Type 0
HoldsRow row outcome = In row outcome.1.agents

module _ (hash : Text → Text) (now : ℕ) (fresh : Fresh) (q : Request) (w : World) where
  module _ (row : AgentRow) (here : In row w.agents)
      (only : (o : AgentRow) → In o w.agents → o.id ≡ row.id → o ≡ row)
      (hidden : row.token_hash ≢ hash (prev_token_of q)) where
    rejoin-keeps : (old : AgentRow) → In old w.agents → HoldsRow row (rejoin hash now fresh q w old)
    unfolding rejoin rotated
    rejoin-keeps old known =
        if_elim (HoldsRow row)
          (not (not (is_empty (prev_token_of q)) && old.token_hash == hash (prev_token_of q)))
          (err prev_token_required, w) _ (λ refused. here)
          (λ shown.
            if_elim (HoldsRow row) (fresh.fails update_agent_row) (err unavailable, w)
              (
                ok (rotated hash fresh.token old, some fresh.token),
                record w { agents = update_agent (rotated hash fresh.token old) w.agents },
              )
              (λ failed. here)
              (λ written. update_agent-In (rotated hash fresh.token old) row w.agents here (λ same.
                hidden (
                  ap (λ a. a.token_hash) (sym (only old known (sym same)))
                  ∙ (eq_iff old.token_hash (hash (prev_token_of q))).0 (ground (arith, shown))))))

    add_agent-keeps :
        (name : Text) (placed : Option Resource × Estate)
        → HoldsRow row (add_agent hash now fresh w name placed)
    unfolding add_agent
    add_agent-keeps name (none, e) = here
    add_agent-keeps name (some service, e) =
        if_elim (HoldsRow row) (fresh.fails create_agent) (err unavailable, record w { estate = e })
          _ (λ failed. here) (λ written. In-append_left row w.agents _ here)

    bind_agent-keeps :
        (name : Text) (placed : Option Resource × Estate)
        → HoldsRow row (bind_agent hash now fresh w name placed)
    unfolding bind_agent
    bind_agent-keeps name (none, e) = here
    bind_agent-keeps name (some h, e) =
        add_agent-keeps name (ensure_agent_service fresh.fails fresh.service_id e h)

    join_at-keeps : (site : Resource) → HoldsRow row (join_at hash now fresh q w site)
    unfolding join_at enroll
    join_at-keeps site =
        if_elim (HoldsRow row) (not (is_empty (trim q.hostname)) && fresh.fails list_agents)
          (err unavailable, w) _ (λ failed. here)
          (λ listed. elim (Option-cases (existing_agent w.agents (trim q.hostname))) [
            | inr (old, known) ↦
                rw known (rejoin-keeps old (existing-In hash now fresh q w old known).0)
            | inl new ↦ rw new (
                bind_agent-keeps (or_text (trim q.hostname) fresh.default_name) (
                  place_host fresh w.estate site.id (or_text (trim q.hostname) fresh.default_name)))
          ])

    join-keeps : HoldsRow row (join hash now fresh q w)
    unfolding join
    join-keeps = elim (Option-cases (site_for w.estate.resources (trim q.site_hint))) [
      | inl nowhere ↦ rw (nowhere, join) here
      | inr (site, found) ↦ rw (found, join) (join_at-keeps site)
    ]

  pub count_use-agents :
      (key : JoinKey) (outcome : Result Rejection (AgentRow × Option Text) × World)
      → (count_use hash now fresh key outcome).1.agents ≡ outcome.1.agents
  unfolding count_use
  count_use-agents key (ok a, after) =
      if_elim (λ (o : Result Rejection (AgentRow × Option Text) × World). o.1.agents ≡ after.agents)
        (fresh.fails update_key_row) _ _ (λ lost. refl) (λ counted. refl)
  count_use-agents key (err e, after) = refl

  -- With a join key alone nobody changes the row of an agent that is enrolled: only who shows the
  -- agent's present token does.
  pub connect-keeps :
      (row : AgentRow)
      → In row w.agents
      → ((o : AgentRow) → In o w.agents → o.id ≡ row.id → o ≡ row)
      → row.token_hash ≢ hash (prev_token_of q)
      → In row (connect hash now fresh q w).1.agents
  unfolding connect by_key
  connect-keeps row here only hidden =
      if_elim (HoldsRow row) (not (is_empty (token_of q)) && fresh.fails find_agent)
        (err unavailable, w) _ (λ failed. here)
        (λ asked. elim (Option-cases (authenticate hash w.agents (token_of q))) [
          | inr (a, known) ↦ rw known here
          | inl unknown ↦ rw unknown (
              if_elim (HoldsRow row) (not (is_empty (token_of q)) && fresh.fails find_key)
                (err unavailable, w) _ (λ failed. here)
                (λ found. elim (Option-cases (authenticate_key hash now w.keys (token_of q))) [
                  | inl bad ↦ rw bad here
                  | inr (key, good) ↦
                      rw (good, count_use-agents key (join hash now fresh q w))
                        (join-keeps row here only hidden)
                ]))
        ])
