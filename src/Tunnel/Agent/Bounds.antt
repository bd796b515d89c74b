-- ===== src/Tunnel/Agent/Bounds.antt =====
-- Whatever happens to the agent, its attempts, its delay and its sleeps stay in bounds.
use lem.Base.{refl, List, [], ◌∷◌, Result, ok, err, arith}
use lem.Text.{Text, Bytes}
use lem.Json.{Json}
use lem.Tunnel.Router.{Urllib}
use lem.Tunnel.HttpProxy
use lem.Tunnel.WsProxy.State
use lem.Tunnel.Agent.State.{TunnelAgent, Signal, init}
use lem.Tunnel.Agent.Messages.{Peer, OutcomeOf}
use lem.Tunnel.Agent.Requests.{process_signaling_message}
use lem.Tunnel.Agent.Untimed.{
  create_data_channel-timing, on_icecandidate-timing, send_frame-timing, send_data-timing,
  disconnect-timing, process_signaling_message-timing, handle_datachannel_message-timing,
}
use lem.Tunnel.Agent.Paced.{
  IsPaced, by_timing, by_pace, two, begin_reconnect-Paced, connect-pace,
  on_relay_state_change-timing, wake-Paced, begin_task-Paced, on_connectionstatechange-Paced,
}
use lem.Tunnel.Agent.Runs.{
  Step, connects, receives, breaks, begins, disconnects, wakes, pc_changes, relay_changes, gathers,
  opens_channel, gets_frame, sends_frame, sends_data, step, caught, run,
}

init-Paced :
    (openwebui : Result Text) (url relay_url : Text) → IsPaced (init openwebui url relay_url)
unfolding init
init-Paced openwebui url relay_url = record {
  attempts = omega arith;
  max_attempts = refl;
  delay = two;
  max_delay = refl;
  slept = tt;
}

module _ (openwebui : Result Text) (accepts : Signal → Result (Unit {0})) (peer : Peer)
    (json : Json) (lib : Urllib) (http_world : HttpProxy.World json.Value)
    (ws_world : State.World json.Value) (takes : Bytes → Result (Unit {0})) where
  abbrev happens : Step → TunnelAgent → TunnelAgent
  happens = step openwebui accepts peer json lib http_world ws_world takes

  abbrev runs : List Step → TunnelAgent → TunnelAgent
  runs = run openwebui accepts peer json lib http_world ws_world takes

  caught-Paced :
      (r : OutcomeOf (Unit {0}))
      → IsPaced r.1
      → IsPaced (caught openwebui accepts peer json lib http_world ws_world takes r)
  unfolding caught
  caught-Paced (ok u, a) p = p
  caught-Paced (err e, a) p = begin_reconnect-Paced a p

  step-Paced : (s : Step) (a : TunnelAgent) → IsPaced a → IsPaced (happens s a)
  unfolding step
  step-Paced (connects url device_id token target servers outcome) a p =
      by_pace a _ a.connection_mode _ (connect-pace url device_id token target servers outcome a) p
  step-Paced (receives m answer) a p =
      let done = process_signaling_message openwebui accepts peer m answer a in
      caught-Paced done
        (by_timing a done.1 (process_signaling_message-timing openwebui accepts peer m answer a) p)
  step-Paced breaks a p = begin_reconnect-Paced a p
  step-Paced begins a p = begin_task-Paced openwebui a p
  step-Paced disconnects a p = by_timing a _ (disconnect-timing ws_world a) p
  step-Paced (wakes outcome) a p = wake-Paced openwebui outcome a p
  step-Paced (pc_changes again s outcome) a p =
      on_connectionstatechange-Paced openwebui again s outcome a p
  step-Paced (relay_changes s) a p = by_timing a _ (on_relay_state_change-timing s a) p
  step-Paced (gathers c) a p = by_timing a _ (on_icecandidate-timing accepts c a) p
  step-Paced (opens_channel c) a p = by_timing a _ (create_data_channel-timing c a) p
  step-Paced (gets_frame b) a p =
      by_timing a _ (handle_datachannel_message-timing json lib http_world ws_world b a) p
  step-Paced (sends_frame b) a p = by_timing a _ (send_frame-timing takes b a) p
  step-Paced (sends_data b) a p = by_timing a _ (send_data-timing b a) p

  run-Paced : (steps : List Step) (a : TunnelAgent) → IsPaced a → IsPaced (runs steps a)
  unfolding run
  run-Paced [] a p = p
  run-Paced (s ∷ steps) a p = run-Paced steps (happens s a) (step-Paced s a p)

  -- From a new agent on, whatever the servers, the peer, the relay and the callers do, in whatever
  -- order, and however many reconnections are under way: the agent has counted at most three
  -- attempts, its delay is between two seconds and a minute, and so was each sleep before a
  -- reconnection.
  pub run-bounded :
      (url relay_url : Text) (steps : List Step)
      → IsPaced (runs steps (init openwebui url relay_url))
  run-bounded url relay_url steps = run-Paced steps _ (init-Paced openwebui url relay_url)
