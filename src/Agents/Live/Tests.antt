-- ===== src/Agents/Live/Tests.antt =====
-- An agent that reconnects, for nodejs/utils/agent_manager.js.
use theta_directory.Base.{
  ℕ, true, false, Text, codes, [], get, none, none≢some, In, err, ok, ◌≡◌, refl, ◌==◌, put,
}
use theta_directory.Agents.Live.{
  Fleet, on_connect, disconnect, send_command, not_connected, register_agent, supersede, is_open,
}
use theta_directory.Agents.Live.Steps.{Reachable, start, after, connects, IsTracked}
use theta_directory.Agents.Live.Tracked.{reachable-IsTracked, disconnect-silent}

abbrev nobody : Fleet
nobody = record { live = []; sockets = [] }

abbrev one : Fleet
one = on_connect nobody (codes "a1") 7 (codes "10.0.0.5")

one-Reachable : Reachable one
unfolding get
one-Reachable = after start (
    connects nobody (codes "a1") 7 (codes "10.0.0.5")
      ((λ id none_left. none_left), (λ id s h. absurd (none≢some h))))

reachable-IsTracked_example : IsTracked one
reachable-IsTracked_example = reachable-IsTracked one one-Reachable

abbrev plain_sign : Text → Text → Text
plain_sign command payload = payload

disconnect-silent_example :
    ((ws : ℕ) → In (ws, codes "a1") (disconnect one (codes "a1")).1.sockets → ⊥)
    × (send_command plain_sign (disconnect one (codes "a1")).1 (codes "a1") (codes "reboot") [] true
        ≡ err not_connected)
disconnect-silent_example =
    disconnect-silent one one-Reachable (codes "a1") (codes "reboot") [] true plain_sign

sent :
    send_command plain_sign one (codes "a1") (codes "status") [] false
    ≡ ok (7, codes "status", [], none)
unfolding send_command on_connect register_agent is_open supersede get put ◌==◌
sent = refl
