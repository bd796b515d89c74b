-- ===== src/Tunnel/Agent/Runs.antt =====
-- What can happen to the agent, and sequences of it: its timing stays in bounds.
use lem.Base.{ℕ, Bool, Option, List, [], ◌∷◌, Result, ok, err}
use lem.Text.{Text, Bytes}
use lem.Json.{Json}
use lem.Tunnel.Router.{Urllib}
use lem.Tunnel.HttpProxy
use lem.Tunnel.WsProxy.State
use lem.Tunnel.RelayClient.{RelayConnectionState}
use lem.Tunnel.Agent.State.{
  TunnelAgent, IceServer, Candidate, Channel, Signal, send_frame, send_data, disconnect,
}
use lem.Tunnel.Agent.Reconnect.{
  Outcome, begin_reconnect, connect, on_relay_state_change, wake, begin_task, PcState,
  on_connectionstatechange,
}
use lem.Tunnel.Agent.Messages.{
  OutcomeOf, Peer, Message, create_data_channel, on_icecandidate, handle_datachannel_message,
}
use lem.Tunnel.Agent.Requests.{process_signaling_message}

-- What the other ends, the libraries and the callers can make the agent do.
pub data Step : Type 0 where
  connects : Text → Text → Text → Option Text → Option (List IceServer) → Outcome → Step
  receives : Message → Result ℕ → Step
  breaks begins disconnects : Step
  wakes : Outcome → Step
  pc_changes : Bool → PcState → Outcome → Step
  relay_changes : RelayConnectionState → Step
  gathers : Option Candidate → Step
  opens_channel : Channel → Step
  gets_frame sends_frame sends_data : Bytes → Step

module _ (openwebui : Result Text) (accepts : Signal → Result (Unit {0})) (peer : Peer)
    (json : Json) (lib : Urllib) (http_world : HttpProxy.World json.Value)
    (ws_world : State.World json.Value) (takes : Bytes → Result (Unit {0})) where
  -- The `except` around a message.
  unfoldable pub caught : OutcomeOf (Unit {0}) → TunnelAgent
  unfolding begin_reconnect
  caught (ok u, a) = a
  caught (err e, a) = begin_reconnect a

  -- `breaks`: the signaling WebSocket fails, which starts a reconnection.
  unfoldable pub step : Step → TunnelAgent → TunnelAgent
  unfolding caught
  step (connects url device_id token target ice_servers outcome) a =
      (connect url device_id token target ice_servers outcome a).1
  step (receives m answer) a = caught (process_signaling_message openwebui accepts peer m answer a)
  step breaks a = begin_reconnect a
  step begins a = begin_task a
  step disconnects a = disconnect ws_world a
  step (wakes outcome) a = wake openwebui outcome a
  step (pc_changes again s outcome) a = on_connectionstatechange openwebui again s outcome a
  step (relay_changes s) a = on_relay_state_change s a
  step (gathers c) a = (on_icecandidate accepts c a).1
  step (opens_channel c) a = (create_data_channel c a).1
  step (gets_frame b) a = handle_datachannel_message json lib http_world ws_world b a
  step (sends_frame b) a = send_frame takes b a
  step (sends_data b) a = (send_data b a).1

  unfoldable pub run : List Step → TunnelAgent → TunnelAgent
  run [] a = a
  run (s ∷ steps) a = run steps (step s a)
