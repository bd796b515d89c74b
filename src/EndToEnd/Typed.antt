-- ===== src/EndToEnd/Typed.antt =====
-- server/app/tunnel/webrtc_client.py against cloud/signaling/app/models/schemas.py: the agent's
-- acknowledgements fit their schema.
use lem.Base.{◌≡◌, refl, ◌∙◌, true, Option, some, List, [], ◌∷◌, Result, ok, err, All, seq_eq}
use lem.Base.Dict.{Dict, lookup}
use lem.Text.{Text, Bytes}
use lem.Text.Methods.{lit}
use lem.Json.{Json}
use lem.Tunnel.Router.{Urllib}
use lem.Tunnel.HttpProxy
use lem.Tunnel.WsProxy.State
use lem.Signaling.Message.{Value, str}
use lem.Signaling.Schemas.{
  is_connect_ack, is_connect_ack_received, notification, forwarded, acknowledgement,
  is_received-notification,
}
use lem.Tunnel.Agent.State.{TunnelAgent, Signal, connect_ack, init}
use lem.Tunnel.Agent.Messages.{OutcomeOf, Peer}
use lem.Tunnel.Agent.Requests.{process_signaling_message}
use lem.Tunnel.Agent.Signaled.{
  begin_reconnect-Silent, connect-Silent, on_relay_state_change-Silent, create_data_channel-Silent,
  send_frame-Silent, send_data-Silent, disconnect-Silent, handle_datachannel_message-Silent,
  wake-Silent, begin_task-Silent, on_connectionstatechange-Silent,
}
use lem.Tunnel.Agent.Runs.{
  Step, connects, receives, breaks, begins, disconnects, wakes, pc_changes, relay_changes, gathers,
  opens_channel, gets_frame, sends_frame, sends_data, step, caught, run,
}
use lem.EndToEnd.Handshake.{ack_message}
use lem.EndToEnd.Fitting.{IsFit, Sound, silent, process-Sound, on_icecandidate-Sound}

-- The notification that the signaling server makes of an acknowledgement fits `ConnectAckReceived`.
abbrev pub IsFitFrom : Text → Text → Signal → Type 0
IsFitFrom relay_url sender (connect_ack target transport session_id status) =
    let m = ack_message target transport session_id status in
    (is_connect_ack m ≡ true)
    × ((n : Dict Text Value) × (notification (forwarded relay_url sender m) ≡ some n)
        × (is_connect_ack_received n ≡ true))
IsFitFrom relay_url sender m = Unit

ack_type :
    (target transport : Text) (session_id : Option Text) (status : Text)
    → lookup (lit "type") (ack_message target transport session_id status)
      ≡ some (str (lit "connect-ack"))
unfolding lookup
ack_type target transport session_id status = refl

ack_target :
    (target transport : Text) (session_id : Option Text) (status : Text)
    → lookup (lit "target_device_id") (ack_message target transport session_id status)
      ≡ some (str target)
unfolding lookup
ack_target target transport session_id status = refl

forwarded_fit : (relay_url sender : Text) (m : Signal) → IsFit m → IsFitFrom relay_url sender m
forwarded_fit relay_url sender (connect_ack target transport session_id status) f =
    let m = ack_message target transport session_id status in
    let (n, e, same) =
      is_received-notification relay_url sender target acknowledgement m
        (ack_type target transport session_id status)
        (ack_target target transport session_id status) in
    (f, (n, e, same ∙ f))
forwarded_fit relay_url sender (Signal.answer target d) f = tt
forwarded_fit relay_url sender (Signal.ice_candidate target c) f = tt

All-forwarded :
    (relay_url sender : Text) (ms : List Signal)
    → All IsFit ms
    → All (IsFitFrom relay_url sender) ms
All-forwarded relay_url sender [] p = tt
All-forwarded relay_url sender (m ∷ ms) (f, p) =
    (forwarded_fit relay_url sender m f, All-forwarded relay_url sender ms p)

module _ (openwebui : Result Text) (accepts : Signal → Result (Unit {0})) (peer : Peer)
    (json : Json) (lib : Urllib) (http_world : HttpProxy.World json.Value)
    (ws_world : State.World json.Value) (takes : Bytes → Result (Unit {0})) where
  abbrev happens : Step → TunnelAgent → TunnelAgent
  happens = step openwebui accepts peer json lib http_world ws_world takes

  abbrev runs : List Step → TunnelAgent → TunnelAgent
  runs = run openwebui accepts peer json lib http_world ws_world takes

  caught-Sound :
      (r : OutcomeOf (Unit {0}))
      → Sound r.1
      → Sound (caught openwebui accepts peer json lib http_world ws_world takes r)
  unfolding caught
  caught-Sound (ok u, a) p = p
  caught-Sound (err e, a) p = silent (begin_reconnect-Silent a) p

  step-Sound : (s : Step) (a : TunnelAgent) → Sound a → Sound (happens s a)
  unfolding step
  step-Sound (connects url device_id token target servers outcome) a p =
      silent (connect-Silent url device_id token target servers outcome a) p
  step-Sound (receives m answer) a p =
      caught-Sound (process_signaling_message openwebui accepts peer m answer a)
        (process-Sound accepts openwebui peer m answer a p)
  step-Sound breaks a p = silent (begin_reconnect-Silent a) p
  step-Sound begins a p = silent (begin_task-Silent openwebui a) p
  step-Sound disconnects a p = silent (disconnect-Silent ws_world a) p
  step-Sound (wakes outcome) a p = silent (wake-Silent openwebui outcome a) p
  step-Sound (pc_changes again s outcome) a p =
      silent (on_connectionstatechange-Silent openwebui again s outcome a) p
  step-Sound (relay_changes s) a p = silent (on_relay_state_change-Silent s a) p
  step-Sound (gathers c) a p = on_icecandidate-Sound accepts c a p
  step-Sound (opens_channel c) a p = silent (create_data_channel-Silent c a) p
  step-Sound (gets_frame b) a p =
      silent (handle_datachannel_message-Silent json lib http_world ws_world b a) p
  step-Sound (sends_frame b) a p = silent (send_frame-Silent takes b a) p
  step-Sound (sends_data b) a p = silent (send_data-Silent b a) p

  run-Sound : (steps : List Step) (a : TunnelAgent) → Sound a → Sound (runs steps a)
  unfolding run
  run-Sound [] a p = p
  run-Sound (s ∷ steps) a p = run-Sound steps (happens s a) (step-Sound s a p)

  init-Sound : (url relay_url : Text) → Sound (init openwebui url relay_url)
  unfolding init
  init-Sound url relay_url = tt

  -- From a new agent on, whatever happens to it, in whatever order, where each field of a request
  -- to connect is a text, whatever text, or left out: each acknowledgement that the agent sends
  -- fits the schema `ConnectAck`, and what the signaling server makes of it, for whatever device
  -- the agent was verified as, fits `ConnectAckReceived`.
  pub run-IsFitFrom :
      (url relay_url public_relay_url sender : Text) (steps : List Step)
      → All (IsFitFrom public_relay_url sender) (runs steps (init openwebui url relay_url)).signaled
  run-IsFitFrom url relay_url public_relay_url sender steps =
      All-forwarded public_relay_url sender _
        (run-Sound steps (init openwebui url relay_url) (init-Sound url relay_url))
