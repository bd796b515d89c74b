-- ===== src/Tunnel/Agent/Messages.antt =====
-- server/app/tunnel/webrtc_client.py: the messages of the signaling server, and the frames of the
-- data channel. aiortc is an argument; a field of a message is absent or a text, and what one message
-- causes is taken to happen without a break.
use lem.Base.{
  ℕ, true, Option, none, some, [], ◌∷◌, ◌++◌, if◌then◌else◌, seq_eq, Result, ok, err,
  not_initialized, key_error,
}
use lem.Text.{Text, Bytes}
use lem.Text.Methods.{lit}
use lem.Json.{Json}
use lem.Tunnel.Router.{Urllib}
use lem.Tunnel.HttpProxy
use lem.Tunnel.WsProxy.State
use lem.Tunnel.Dispatcher.{dispatch}
use lem.Tunnel.RelayClient.{given}
use lem.Tunnel.Agent.State.{
  Channel, Description, Candidate, PeerCall, remote, local, candidate, Signal, answer,
  ice_candidate, connect_ack, TunnelAgent, send_signaling_message, is_open, on_channel,
}

-- A coroutine's outcome and the state behind it; the next one runs if it returned.
abbrev pub OutcomeOf : Type 0 → Type 0
OutcomeOf A = Result A × TunnelAgent

abbrev pub and_then : {A B : Type 0} → OutcomeOf A → (A → TunnelAgent → OutcomeOf B) → OutcomeOf B
and_then (err e, a) next = (err e, a)
and_then (ok x, a) next = next x a

-- What aiortc does with a call, and the descriptions that it makes.
pub record Peer : Type 0 where
  pub takes : ℕ → PeerCall → Result (Unit {0})
  pub offers : ℕ → Result Description
  pub answers : ℕ → Result Description

-- A candidate as it comes in a message.
pub record CandidateDict : Type 0 where
  pub line : Option Text
  pub sdp_mid : Option Text
  pub sdp_m_line_index : Option ℕ

-- A description as it comes in a message, and the message that carries one.
pub record Payload : Type 0 where
  pub sdp : Option Text
  pub kind : Option Text

pub record ConnectRequest : Type 0 where
  pub from_device_id : Option Text
  pub preferred_transport : Option Text
  pub relay_session_id : Option Text
  pub relay_url : Option Text

-- A message of the signaling server, by its `type`.
pub data Message : Type 0 where
  confirmed error ack other : Message
  offered : Option Text → Payload → Message
  answered : Payload → Message
  ice : CandidateDict → Message
  connect_request : ConnectRequest → Message

abbrev pub or_else {ℓ} : {A : Type ℓ} → Option A → A → A
or_else none d = d
or_else (some x) d = x

-- `RTCSessionDescription`, with what `get` puts for a missing field.
abbrev pub described : Text → Payload → Description
described kind p = record { sdp = or_else p.sdp []; kind = or_else p.kind kind }

-- `x or y`
abbrev pub first_given : Option Text → Option Text → Option Text
first_given x y = if given x then x else y

-- `_setup_data_channel`
unfoldable pub setup_data_channel : Channel → TunnelAgent → TunnelAgent
setup_data_channel c a = record a { data_channel = some c }

-- `create_data_channel`; `c` is what `createDataChannel` gives.
unfoldable pub create_data_channel : Channel → TunnelAgent → OutcomeOf Channel
unfolding setup_data_channel
create_data_channel c a = elim a.pc [
  | none ↦ (err not_initialized, a)
  | some n ↦ (ok c, setup_data_channel c a)
]

-- `_send_frame` and the dispatcher for the frames of a data channel: `_handle_datachannel_message`.
module _ (json : Json) (lib : Urllib) (http_world : HttpProxy.World json.Value)
    (ws_world : State.World json.Value) where
  reply_with : Result (Option Bytes) → TunnelAgent → TunnelAgent
  reply_with (ok (some (b ∷ bs))) a =
      if is_open a.data_channel then on_channel (b ∷ bs) a.data_channel a else a
  reply_with _ a = a

  unfoldable pub handle_datachannel_message : Bytes → TunnelAgent → TunnelAgent
  unfolding reply_with
  handle_datachannel_message frame_bytes a =
      let (result, ws_proxy) =
        dispatch json lib http_world ws_world a.http_proxy frame_bytes a.ws_proxy in
      reply_with result (record a { ws_proxy = ws_proxy })

-- What comes over a data channel.
pub data ChannelMessage : Type 0 where
  text : Text → ChannelMessage
  binary : Bytes → ChannelMessage

-- `on_message`: a frame is handled, here at once, and a text goes to the callback, if there is one,
-- which may do anything to the agent.
module _ (json : Json) (lib : Urllib) (http_world : HttpProxy.World json.Value)
    (ws_world : State.World json.Value) where
  unfoldable pub on_message :
      Option (Text → TunnelAgent → TunnelAgent) → ChannelMessage → TunnelAgent → TunnelAgent
  unfolding handle_datachannel_message
  on_message callback (binary frame_bytes) a =
      handle_datachannel_message json lib http_world ws_world frame_bytes a
  on_message none (text t) a = a
  on_message (some callback) (text t) a = callback t a

module _ (peer : Peer) where
  open peer use {takes, offers, answers}

  tell : ℕ → PeerCall → TunnelAgent → OutcomeOf (Unit {0})
  tell n call a = elim (takes n call) [
    | err e ↦ (err e, a)
    | ok u ↦ (ok u, record a { peer_calls = a.peer_calls ++ (n, call) ∷ [] })
  ]

  -- What is done with the peer connection, which must be there.
  with_pc : {A : Type 0} → (ℕ → TunnelAgent → OutcomeOf A) → TunnelAgent → OutcomeOf A
  with_pc next a = elim a.pc [ none ↦ (err not_initialized, a) | some n ↦ next n a ]

  -- A description that the connection made is its local one.
  localize : ℕ → Result Description → TunnelAgent → OutcomeOf Description
  unfolding tell
  localize n (err e) a = (err e, a)
  localize n (ok d) a = and_then (tell n (local d) a) (λ u b. (ok d, b))

  unfoldable pub create_offer : TunnelAgent → OutcomeOf Description
  unfolding with_pc localize
  create_offer = with_pc (λ n. localize n (offers n))

  unfoldable pub create_answer : Description → TunnelAgent → OutcomeOf Description
  unfolding with_pc localize tell
  create_answer offer =
      with_pc (λ n a. and_then (tell n (remote offer) a) (λ u. localize n (answers n)))

  unfoldable pub set_remote_description : Description → TunnelAgent → OutcomeOf (Unit {0})
  unfolding with_pc tell
  set_remote_description sdp = with_pc (λ n. tell n (remote sdp))

  tell_candidate : CandidateDict → Option Text → ℕ → TunnelAgent → OutcomeOf (Unit {0})
  unfolding tell
  tell_candidate c none n a = (err key_error, a)
  tell_candidate c (some sdp) n a =
      tell n
        (candidate
          (record { sdp = sdp; sdp_mid = c.sdp_mid; sdp_m_line_index = c.sdp_m_line_index }))
        a

  unfoldable pub add_ice_candidate : CandidateDict → TunnelAgent → OutcomeOf (Unit {0})
  unfolding with_pc tell_candidate
  add_ice_candidate c = with_pc (tell_candidate c c.line)

  answer_to : (Signal → Result (Unit {0})) → Text → Payload → TunnelAgent → OutcomeOf (Unit {0})
  answer_to accepts sender p a =
      and_then
        (create_answer (described (lit "offer") p) (record a { peer_device_id = some sender }))
        (λ d. send_signaling_message accepts (answer sender d))

  -- An offer: the answer goes to the sender, if the offer names one.
  unfoldable pub on_offer :
      (Signal → Result (Unit {0})) → Option Text → Payload → TunnelAgent → OutcomeOf (Unit {0})
  unfolding answer_to
  on_offer accepts sender p a =
      if given sender
      then answer_to accepts (or_else sender []) p a
      else and_then (create_answer (described (lit "offer") p) a) (λ d b. (ok tt, b))

-- `on_icecandidate`: `None` ends the gathering.
unfoldable pub on_icecandidate :
    (Signal → Result (Unit {0})) → Option Candidate → TunnelAgent → OutcomeOf (Unit {0})
on_icecandidate accepts none a = (ok tt, record a { ice_gathering_complete = true })
on_icecandidate accepts (some c) a =
    let target = first_given a.peer_device_id a.target_device_id in
    if given target
    then send_signaling_message accepts (ice_candidate (or_else target []) c) a
    else (ok tt, a)

-- `_send_connect_ack`
unfoldable pub send_connect_ack :
    (Signal → Result (Unit {0}))
    → Text
    → Text
    → Option Text
    → Text
    → TunnelAgent
    → OutcomeOf (Unit {0})
send_connect_ack accepts target transport session_id status =
    send_signaling_message accepts (connect_ack target transport session_id status)
