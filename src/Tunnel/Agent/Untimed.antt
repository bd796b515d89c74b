-- ===== src/Tunnel/Agent/Untimed.antt =====
-- What leaves the attempts, the delays, the sleeps and the mode of the agent as they are, whether it
-- has its parameters, and the reconnections under way.
use lem.Base.{ℕ, ◌≡◌, refl, Bool, false, Option, List, if-both, Result, arith}
use lem.Text.{Text, Bytes}
use lem.Tunnel.Manager.{ConnectionState}
use lem.Json.{Json}
use lem.Tunnel.Router.{Urllib}
use lem.Tunnel.HttpProxy
use lem.Tunnel.WsProxy.State
use lem.Tunnel.Agent.State.{
  Mode, TunnelAgent, Candidate, Channel, Description, Signal, set_state, send_signaling_message,
  send_frame, send_data, disconnect,
}
use lem.Tunnel.Agent.Reconnect.{has_parameters}
use lem.Tunnel.Agent.Messages.{
  Peer, CandidateDict, Payload, create_answer, set_remote_description, add_ice_candidate, on_offer,
  on_icecandidate, create_data_channel, handle_datachannel_message, send_connect_ack,
  ConnectRequest, Message, confirmed, error, ack, other, offered, answered, ice, connect_request,
}
use lem.Tunnel.Agent.Requests.{handle_connect_request, process_signaling_message}

-- Whether reconnecting is allowed, and the reconnections under way.
pub record Tasks : Type 0 where
  pub allowed : Bool
  pub asleep : ℕ
  pub starting : ℕ

abbrev pub tasks_of : TunnelAgent → Tasks
tasks_of a = record { allowed = a.should_reconnect; asleep = a.asleep; starting = a.starting }

pub record Timing : Type 0 where
  pub attempts : ℕ
  pub max_attempts : ℕ
  pub delay : ℕ
  pub max_delay : ℕ
  pub slept : List ℕ
  pub mode : Mode
  pub complete : Bool
  pub tasks : Tasks

abbrev pub timing : TunnelAgent → Timing
timing a = record {
  attempts = a.webrtc_attempts;
  max_attempts = a.max_webrtc_attempts;
  delay = a.reconnect_delay;
  max_delay = a.max_reconnect_delay;
  slept = a.slept;
  mode = a.connection_mode;
  complete = has_parameters a;
  tasks = tasks_of a;
}

pub set_state-timing : (s : ConnectionState) (a : TunnelAgent) → timing (set_state s a) ≡ timing a
unfolding set_state
set_state-timing s a = if-both (λ b. timing b ≡ timing a) _ refl refl

pub send_signaling_message-timing :
    (accepts : Signal → Result (Unit {0})) (m : Signal) (a : TunnelAgent)
    → timing (send_signaling_message accepts m a).1 ≡ timing a
unfolding send_signaling_message
send_signaling_message-timing accepts m a = ground arith

pub create_answer-timing :
    (peer : Peer) (d : Description) (a : TunnelAgent) → timing (create_answer peer d a).1 ≡ timing a
unfolding create_answer
create_answer-timing peer d a = ground arith

pub set_remote_description-timing :
    (peer : Peer) (d : Description) (a : TunnelAgent)
    → timing (set_remote_description peer d a).1 ≡ timing a
unfolding set_remote_description
set_remote_description-timing peer d a = ground arith

pub add_ice_candidate-timing :
    (peer : Peer) (c : CandidateDict) (a : TunnelAgent)
    → timing (add_ice_candidate peer c a).1 ≡ timing a
unfolding add_ice_candidate
add_ice_candidate-timing peer c a = ground arith

pub on_offer-timing :
    (peer : Peer) (accepts : Signal → Result (Unit {0})) (sender : Option Text) (p : Payload)
    (a : TunnelAgent)
    → timing (on_offer peer accepts sender p a).1 ≡ timing a
unfolding on_offer create_answer send_signaling_message
on_offer-timing peer accepts sender p a = ground arith

pub on_icecandidate-timing :
    (accepts : Signal → Result (Unit {0})) (c : Option Candidate) (a : TunnelAgent)
    → timing (on_icecandidate accepts c a).1 ≡ timing a
unfolding on_icecandidate send_signaling_message
on_icecandidate-timing accepts c a = ground arith

pub create_data_channel-timing :
    (c : Channel) (a : TunnelAgent) → timing (create_data_channel c a).1 ≡ timing a
unfolding create_data_channel
create_data_channel-timing c a = ground arith

pub send_frame-timing :
    (takes : Bytes → Result (Unit {0})) (frame_bytes : Bytes) (a : TunnelAgent)
    → timing (send_frame takes frame_bytes a) ≡ timing a
unfolding send_frame
send_frame-timing takes frame_bytes a = ground arith

pub send_data-timing : (bytes : Bytes) (a : TunnelAgent) → timing (send_data bytes a).1 ≡ timing a
unfolding send_data
send_data-timing bytes a = ground arith

pub disconnect-timing :
    {V : Type 0} (world : State.World V) (a : TunnelAgent)
    → timing (disconnect world a)
      ≡ record (timing a) { tasks = record (tasks_of a) { allowed = false } }
unfolding disconnect set_state
disconnect-timing world a = ground arith

module _ (openwebui : Result Text) (accepts : Signal → Result (Unit {0})) where
  pub handle_connect_request-timing :
      (r : ConnectRequest) (answer : Result ℕ) (a : TunnelAgent)
      → timing (handle_connect_request openwebui accepts r answer a).1 ≡ timing a
  unfolding handle_connect_request send_connect_ack send_signaling_message
  handle_connect_request-timing r answer a = ground arith

  pub process_signaling_message-timing :
      (peer : Peer) (m : Message) (answer : Result ℕ) (a : TunnelAgent)
      → timing (process_signaling_message openwebui accepts peer m answer a).1 ≡ timing a
  unfolding process_signaling_message
  process_signaling_message-timing peer confirmed answer a = refl
  process_signaling_message-timing peer error answer a = refl
  process_signaling_message-timing peer ack answer a = refl
  process_signaling_message-timing peer other answer a = refl
  process_signaling_message-timing peer (offered sender p) answer a =
      on_offer-timing peer accepts sender p a
  process_signaling_message-timing peer (answered p) answer a =
      set_remote_description-timing peer _ a
  process_signaling_message-timing peer (ice c) answer a = add_ice_candidate-timing peer c a
  process_signaling_message-timing peer (connect_request r) answer a =
      handle_connect_request-timing r answer a

pub handle_datachannel_message-timing :
    (json : Json) (lib : Urllib) (http_world : HttpProxy.World json.Value)
    (ws_world : State.World json.Value) (frame_bytes : Bytes) (a : TunnelAgent)
    → timing (handle_datachannel_message json lib http_world ws_world frame_bytes a) ≡ timing a
unfolding handle_datachannel_message
handle_datachannel_message-timing json lib http_world ws_world frame_bytes a = ground arith
