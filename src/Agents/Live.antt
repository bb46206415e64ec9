-- ===== src/Agents/Live.antt =====
-- nodejs/utils/agent_manager.js: the live sockets of the agents, and commands over them.
pub mod Steps
pub mod Tracked
mod Tests
use theta_directory.Base.{
  ℕ, Bool, true, false, not, ◌&&◌, List, [], ◌∷◌, Option, none, some, filter, any, eqb,
  if◌then◌else◌, Text, codes, get, put, delete, Result, ok, err, is_empty,
}

-- `lastResponse`
pub record Response : Type 0 where
  pub status : Text
  pub message : Text
  pub output : Text

-- An entry of `live`; a socket is the number that the process knows it by.
pub record Session : Type 0 where
  pub ws : ℕ
  pub ip_address : Text
  pub last_response : Option Response

-- `live`, and the sockets that are open, each with the agent that it authenticated as.
pub record Fleet : Type 0 where
  pub live : List (Text × Session)
  pub sockets : List (ℕ × Text)

-- `ws.close()`: the socket is not open any more.
unfoldable pub close_socket : ℕ → List (ℕ × Text) → List (ℕ × Text)
close_socket ws sockets = filter (λ s. not (eqb s.0 ws)) sockets

-- `ws.readyState === 1`
unfoldable pub is_open : ℕ → List (ℕ × Text) → Bool
is_open ws sockets = any (λ s. eqb s.0 ws) sockets

-- The sockets that stay open when another one takes over.
unfoldable pub supersede : Option Session → ℕ → List (ℕ × Text) → List (ℕ × Text)
supersede none ws sockets = sockets
supersede (some existing) ws sockets =
    if eqb existing.ws ws then sockets else close_socket existing.ws sockets

unfoldable pub register_agent : Fleet → Text → ℕ → Text → Fleet
register_agent f id ws address = record {
  live = put f.live id (record { ws = ws; ip_address = address; last_response = none });
  sockets = supersede (get f.live id) ws f.sockets;
}

unfoldable pub unregister_agent : Fleet → Text → ℕ → Fleet
unregister_agent f id ws = elim (get f.live id) [
  | none ↦ f
  | some state ↦ if eqb state.ws ws then record f { live = delete f.live id } else f
]

unfoldable pub disconnect : Fleet → Text → Bool × Fleet
disconnect f id = elim (get f.live id) [
  | none ↦ (false, f)
  | some state ↦
      (true, record { live = delete f.live id; sockets = close_socket state.ws f.sockets })
]

unfoldable pub is_connected : Fleet → Text → Bool
is_connected f id = elim (get f.live id) [ none ↦ false | some state ↦ is_open state.ws f.sockets ]

-- `payload.status || 'ok'` and the rest.
unfoldable pub handle_response : Fleet → Text → Response → Fleet
handle_response f id payload = elim (get f.live id) [
  | none ↦ f
  | some state ↦
      let status = if is_empty payload.status then codes "ok" else payload.status in
      record f {
        live =
            put f.live id
              (record state { last_response = some (record payload { status = status }) });
      }
]

-- The error that no socket is open.
pub data NotConnected : Type 0 where
  not_connected : NotConnected

-- `sendCommand`: the socket that the message goes to, and the signature of the envelope.
unfoldable pub send_command :
    (Text → Text → Text)
    → Fleet
    → Text
    → Text
    → Text
    → Bool
    → Result NotConnected (ℕ × Text × Text × Option Text)
send_command sign f id command payload high_risk = elim (get f.live id) [
  | none ↦ err not_connected
  | some state ↦
      if is_open state.ws f.sockets
      then ok (state.ws, command, payload, if high_risk then some (sign command payload) else none)
      else err not_connected
]

-- `liveState`
unfoldable pub live_state : Fleet → Text → Bool × Option Response
live_state f id = elim (get f.live id) [
  | none ↦ (false, none)
  | some state ↦ (is_open state.ws f.sockets, state.last_response)
]

-- A connection that was accepted in nodejs/routes/api_agent.js: the socket is open as the agent.
unfoldable pub on_connect : Fleet → Text → ℕ → Text → Fleet
on_connect f id ws address =
    let registered = register_agent f id ws address in
    record registered { sockets = (ws, id) ∷ registered.sockets }

-- Its `close` event.
unfoldable pub on_close : Fleet → Text → ℕ → Fleet
on_close f id ws = unregister_agent (record f { sockets = close_socket ws f.sockets }) id ws
