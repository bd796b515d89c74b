-- ===== src/Tunnel/Agent/State.antt =====
-- server/app/tunnel/webrtc_client.py: the agent's state, sending, and its end. Peer connections,
-- data channels and sockets are numbers; what aiortc and aiohttp do with them are arguments.
use lem.Base.{
  ℕ, Bool, true, false, Option, none, some, List, [], ◌∷◌, ◌++◌, if◌then◌else◌, nat_beq, ◌==◌,
  seq_eq, Result, ok, err, not_connected,
}
use lem.Base.Dict.{Dict}
use lem.Text.{Text, Bytes}
use lem.Text.Methods.{lit}
use lem.Tunnel.Router.{create_router_with_client_discovery}
use lem.Tunnel.HttpProxy
use lem.Tunnel.HttpProxy.{Session, absent, opened, closed, HttpProxyHandler}
use lem.Tunnel.WsProxy.State
use lem.Tunnel.WsProxy.State.{WsProxyHandler}
use lem.Tunnel.Manager.{ConnectionState, disconnected, number}
use lem.Tunnel.RelayClient
use lem.Tunnel.RelayClient.{
  RelayClient, Socket, no_socket, open_socket, shut_socket, drop_socket, drop_session,
}

-- An entry of `ice_servers`: its URLs, and the login if it has one.
pub record IceServer : Type 0 where
  pub urls : Text
  pub login : Option (Text × Text)

-- `connect`'s default
abbrev pub default_ice_servers : List IceServer
default_ice_servers = record { urls = lit "stun:stun.l.google.com:19302"; login = none } ∷ []

-- `self.data_channel` and its `readyState`
pub record Channel : Type 0 where
  pub name : ℕ
  pub ready_state : Text

-- `RTCSessionDescription`, and a candidate as SDP text.
pub record Description : Type 0 where
  pub sdp : Text
  pub kind : Text

pub record Candidate : Type 0 where
  pub sdp : Text
  pub sdp_mid : Option Text
  pub sdp_m_line_index : Option ℕ

-- What a peer connection is told.
pub data PeerCall : Type 0 where
  remote local : Description → PeerCall
  candidate : Candidate → PeerCall

-- What the agent sends to the signaling server.
pub data Signal : Type 0 where
  answer : Text → Description → Signal
  ice_candidate : Text → Candidate → Signal
  connect_ack : Text → Text → Option Text → Text → Signal

pub data Mode : Type 0 where
  webrtc relay : Mode

-- `asleep` and `starting` count the tasks that are in `_handle_reconnect`: those in its sleep, and
-- those that are created and have not run yet. `signaled`, `sent`, `notified`, `slept` and `released`
-- record what was done: messages to the signaling server, frames and texts over data channels, states
-- that the callback got, lengths of sleeps, and closed peer connections and channels; `peer_calls`
-- what peer connections were told.
pub record TunnelAgent : Type 0 where
  pub signal_url : Option Text
  pub device_id : Option Text
  pub token : Option Text
  pub target_device_id : Option Text
  pub peer_device_id : Option Text
  pub ws : Socket
  pub ws_session : Session
  pub pc : Option ℕ
  pub data_channel : Option Channel
  pub ice_servers : List IceServer
  pub relay_url : Text
  pub relay_client : Option RelayClient
  pub relay_sessions : Dict Text RelayClient
  pub connection_mode : Mode
  pub webrtc_attempts : ℕ
  pub max_webrtc_attempts : ℕ
  pub http_proxy : HttpProxyHandler
  pub ws_proxy : WsProxyHandler
  pub state : ConnectionState
  pub ice_gathering_complete : Bool
  pub should_reconnect : Bool
  pub reconnect_delay : ℕ
  pub max_reconnect_delay : ℕ
  pub next_pc : ℕ
  pub asleep : ℕ
  pub starting : ℕ
  pub signaled : List Signal
  pub sent : List (ℕ × Bytes)
  pub notified : List ConnectionState
  pub slept : List ℕ
  pub released : List ℕ
  pub peer_calls : List (ℕ × PeerCall)

-- `TunnelAgent.__init__`; `openwebui` is what the router's discovery finds.
unfoldable pub init : Result Text → Text → Text → TunnelAgent
init openwebui local_server_url relay_url =
    let router = create_router_with_client_discovery openwebui local_server_url in
    record {
      signal_url = none;
      device_id = none;
      token = none;
      target_device_id = none;
      peer_device_id = none;
      ws = no_socket;
      ws_session = absent;
      pc = none;
      data_channel = none;
      ice_servers = [];
      relay_url = relay_url;
      relay_client = none;
      relay_sessions = [];
      connection_mode = webrtc;
      webrtc_attempts = 0;
      max_webrtc_attempts = 3;
      http_proxy = HttpProxy.init local_server_url router;
      ws_proxy = State.init router;
      state = disconnected;
      ice_gathering_complete = false;
      should_reconnect = true;
      reconnect_delay = 2;
      max_reconnect_delay = 60;
      next_pc = 0;
      asleep = 0;
      starting = 0;
      signaled = [];
      sent = [];
      notified = [];
      slept = [];
      released = [];
      peer_calls = [];
    }

-- `_set_state`: the callback is told of changes only.
unfoldable pub set_state : ConnectionState → TunnelAgent → TunnelAgent
set_state state a =
    if nat_beq (number a.state) (number state)
    then a
    else record a { state = state; notified = a.notified ++ state ∷ [] }

unfoldable pub is_connected : TunnelAgent → Bool
is_connected a = nat_beq (number a.state) 2

-- `get_data_channel_state`
unfoldable pub get_data_channel_state : TunnelAgent → Text
get_data_channel_state a = elim a.data_channel [ none ↦ lit "none" | some c ↦ c.ready_state ]

-- `_send_signaling_message`; `takes` is whether the socket takes the message.
send_to :
    (Signal → Result (Unit {0})) → Signal → Socket → TunnelAgent → Result (Unit {0}) × TunnelAgent
send_to takes message (open_socket n) a = (
  (takes message),
  elim (takes message) [ err e ↦ a | ok u ↦ record a { signaled = a.signaled ++ message ∷ [] } ],
)
send_to takes message _ a = (err not_connected, a)

unfoldable pub send_signaling_message :
    (Signal → Result (Unit {0})) → Signal → TunnelAgent → Result (Unit {0}) × TunnelAgent
unfolding send_to
send_signaling_message takes message a = send_to takes message a.ws a

abbrev pub is_open : Option Channel → Bool
is_open none = false
is_open (some c) = c.ready_state == lit "open"

abbrev pub on_channel : Bytes → Option Channel → TunnelAgent → TunnelAgent
on_channel bytes none a = a
on_channel bytes (some c) a = record a { sent = a.sent ++ (c.name, bytes) ∷ [] }

-- `send_data`, with the text's bytes; `DataChannel.send` is taken to return.
unfoldable pub send_data : Bytes → TunnelAgent → Result (Unit {0}) × TunnelAgent
send_data bytes a =
    if is_open a.data_channel
    then (ok tt, on_channel bytes a.data_channel a)
    else (err not_connected, a)

by_channel : Bytes → TunnelAgent → TunnelAgent
by_channel bytes a = if is_open a.data_channel then on_channel bytes a.data_channel a else a

by_relay :
    (Bytes → Result (Unit {0})) → Bytes → Mode → Option RelayClient → TunnelAgent → TunnelAgent
unfolding by_channel
by_relay takes bytes relay (some c) a = record a {
  relay_client = some (RelayClient.send takes bytes c).1;
}
by_relay takes bytes relay none a = by_channel bytes a
by_relay takes bytes webrtc c a = by_channel bytes a

-- `_send_frame`: over the relay in its mode, else over an open channel, else not at all.
unfoldable pub send_frame : (Bytes → Result (Unit {0})) → Bytes → TunnelAgent → TunnelAgent
unfolding by_relay
send_frame takes bytes a = by_relay takes bytes a.connection_mode a.relay_client a

abbrev released_channel : Option Channel → List ℕ
released_channel none = []
released_channel (some c) = c.name ∷ []

abbrev released_pc : Option ℕ → List ℕ
released_pc none = []
released_pc (some n) = n ∷ []

-- `_reset_webrtc_state`: errors of the closing are caught.
unfoldable pub reset_webrtc_state : TunnelAgent → TunnelAgent
reset_webrtc_state a = record a {
  data_channel = none;
  pc = none;
  ice_gathering_complete = false;
  released = a.released ++ (released_channel a.data_channel ++ released_pc a.pc);
}

-- `disconnect`; closing is taken not to raise.
unfoldable pub disconnect : {V : Type 0} → State.World V → TunnelAgent → TunnelAgent
unfolding set_state
disconnect world a = set_state disconnected (record a {
  should_reconnect = false;
  http_proxy = HttpProxy.stop a.http_proxy;
  ws_proxy = State.stop world a.ws_proxy;
  relay_client = none;
  relay_sessions = [];
  data_channel = none;
  pc = none;
  released = a.released ++ (released_channel a.data_channel ++ released_pc a.pc);
  ws = drop_socket a.ws;
  ws_session = drop_session a.ws_session;
})
