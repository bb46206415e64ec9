-- ===== src/Agents/Live/Tracked.antt =====
-- No socket of an agent escapes nodejs/utils/agent_manager.js.
use theta_directory.Base.{
  ℕ, Bool, Option, Text, eq_refl, get, get-delete, In, ok, err, ok-injective, err≢ok, ◌≡◌, refl,
  sym, ◌∙◌, ap, inl, inr, Bool-cases, Option-cases, subst, none≢some,
}
use theta_directory.Agents.Live.{
  Response, Fleet, is_open, disconnect, handle_response, not_connected, send_command,
}
use theta_directory.Agents.Live.Steps.{
  Step, Reachable, connects, closes, is_cut, answers, start, after, IsTracked, any-In, answered,
  on_connect-IsTracked, left_open, on_close-IsTracked, disconnect-IsTracked,
}

handle_response-IsTracked :
    (f : Fleet) (id : Text) (r : Response) → IsTracked f → IsTracked (handle_response f id r)
unfolding handle_response
handle_response-IsTracked f id r h = elim (Option-cases (get f.live id)) [
  | inl missing ↦ rw (missing, handle_response) h
  | inr (state, found) ↦ rw (found, handle_response) (answered f id state _ found h)
]

Step-IsTracked : {f g : Fleet} → Step f g → IsTracked f → IsTracked g
Step-IsTracked (connects f id ws address fresh) h = on_connect-IsTracked f id ws address fresh h
Step-IsTracked (closes f id ws) h = on_close-IsTracked f id ws h
Step-IsTracked (is_cut f id) h = disconnect-IsTracked f id h
Step-IsTracked (answers f id r) h = handle_response-IsTracked f id r h

-- In any order of connections, closings, cuts and answers, a socket that is open is the live one of
-- the agent that it authenticated as, and the live one of no other agent.
pub reachable-IsTracked : (f : Fleet) → Reachable f → IsTracked f
reachable-IsTracked f start = record {
  live = λ id ws none_left. absurd none_left;
  own = λ id other s found none_left. absurd none_left;
}
reachable-IsTracked g (after before step) = Step-IsTracked step (reachable-IsTracked _ before)

-- Once an agent is cut off, none of its sockets is open, and a command for it is refused.
pub disconnect-silent :
    (f : Fleet)
    → Reachable f
    → (id command payload : Text) (high_risk : Bool) (sign : Text → Text → Text)
    → ((ws : ℕ) → In (ws, id) (disconnect f id).1.sockets → ⊥)
      × (send_command sign (disconnect f id).1 id command payload high_risk ≡ err not_connected)
unfolding disconnect send_command
disconnect-silent f reachable id command payload high_risk sign =
    let h = reachable-IsTracked f reachable in
    elim (Option-cases (get f.live id)) [
      | inl missing ↦
          rw (missing, disconnect, send_command)
            ((λ ws here. none≢some (sym missing ∙ (h.live id ws here).1)), rw missing refl)
      | inr (state, found) ↦
          rw (found, disconnect, send_command)
            (
              (λ ws here. (left_open f id state h found (ws, id) here).1 refl),
              rw (get-delete f.live id id, eq_refl id) refl,
            )
    ]

-- A command goes only to an open socket that authenticated as its agent.
pub send_command-own :
    (f : Fleet)
    → Reachable f
    → (id command payload : Text) (high_risk : Bool) (sign : Text → Text → Text)
    → (sent : ℕ × Text × Text × Option Text)
    → send_command sign f id command payload high_risk ≡ ok sent
    → In (sent.0, id) f.sockets
unfolding send_command is_open
send_command-own f reachable id command payload high_risk sign sent e =
    let h = reachable-IsTracked f reachable in
    elim (Option-cases (get f.live id)) [
      | inl missing ↦ absurd (err≢ok (rw (missing, send_command) at e))
      | inr (state, found) ↦ elim (Bool-cases (is_open state.ws f.sockets)) [
        | inr shut ↦ absurd (err≢ok (rw (found, shut, send_command) at e))
        | inl is_up ↦
            let same : state.ws ≡ sent.0 =
              ap (λ p. p.0) (ok-injective (rw (found, is_up, send_command) at e)) in
            let owner = any-In state.ws f.sockets is_up in
            subst (λ w. In (w, id) f.sockets) same
              (subst (λ o. In (state.ws, o) f.sockets) (h.own id owner.0 state found owner.1)
                owner.1)
      ]
    ]
