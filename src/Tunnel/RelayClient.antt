-- ===== src/Tunnel/RelayClient.antt =====
-- server/app/tunnel/relay_client.py: the tunnel over the relay server. Delays are whole seconds.
-- Opening a WebSocket, whether one takes a frame, and what happens during a sleep are arguments; a
-- callback is taken to return, and closing a session not to raise.
pub mod Reconnect
pub mod Answers
use lem.Base.{
  ℕ, ◌*◌, min, Bool, true, false, not, ◌&&◌, ◌||◌, Option, none, some, List, [], ◌∷◌, ◌++◌,
  if◌then◌else◌, nat_beq, Result, ok, err, Exn, not_connected, not_set,
}
use lem.Text.{Text, Bytes}
use lem.Text.Methods.{truthy}
use lem.Json.{Json}
use lem.Tunnel.Router.{RequestRouter, Urllib, create_router_with_client_discovery}
use lem.Tunnel.HttpProxy
use lem.Tunnel.HttpProxy.{Session, absent, opened, closed, HttpProxyHandler}
use lem.Tunnel.WsProxy.State
use lem.Tunnel.WsProxy.State.{WsProxyHandler}
use lem.Tunnel.Dispatcher.{dispatch}

pub data RelayConnectionState : Type 0 where
  disconnected connecting connected failed closed_ : RelayConnectionState

-- `self.ws`, and whether its `closed` is false.
pub data Socket : Type 0 where
  no_socket : Socket
  open_socket shut_socket : ℕ → Socket

-- `sent`, `notified`, `slept` and `tasks` record what was done: the frames that sockets took, the
-- states that the callback got, the lengths of the sleeps, and the sockets that a task reads from.
pub record RelayClient : Type 0 where
  pub relay_url : Option Text
  pub session_id : Option Text
  pub token : Option Text
  pub ws : Socket
  pub ws_session : Session
  pub http_proxy : HttpProxyHandler
  pub ws_proxy : WsProxyHandler
  pub state : RelayConnectionState
  pub should_reconnect : Bool
  pub reconnect_delay : ℕ
  pub max_reconnect_delay : ℕ
  pub sent : List (ℕ × Bytes)
  pub notified : List RelayConnectionState
  pub slept : List ℕ
  pub tasks : List ℕ

-- `RelayClient.__init__`; `openwebui` is what the router's discovery finds.
unfoldable pub init : Result Text → Text → RelayClient
init openwebui local_server_url =
    let router = create_router_with_client_discovery openwebui local_server_url in
    record {
      relay_url = none;
      session_id = none;
      token = none;
      ws = no_socket;
      ws_session = absent;
      http_proxy = HttpProxy.init local_server_url router;
      ws_proxy = State.init router;
      state = disconnected;
      should_reconnect = true;
      reconnect_delay = 2;
      max_reconnect_delay = 60;
      sent = [];
      notified = [];
      slept = [];
      tasks = [];
    }

abbrev pub number : RelayConnectionState → ℕ
number disconnected = 0
number connecting = 1
number connected = 2
number failed = 3
number closed_ = 4

-- `_set_state`: the callback is told of changes only.
unfoldable pub set_state : RelayConnectionState → RelayClient → RelayClient
set_state state c =
    if nat_beq (number c.state) (number state)
    then c
    else record c { state = state; notified = c.notified ++ state ∷ [] }

unfoldable pub is_connected : RelayClient → Bool
is_connected c = nat_beq (number c.state) (number connected)

abbrev pub given : Option Text → Bool
given none = false
given (some t) = truthy t

-- Not `not self.relay_url or not self.session_id or not self.token`
abbrev pub has_parameters : RelayClient → Bool
has_parameters c = given c.relay_url && (given c.session_id && given c.token)

-- The answer to `ws_connect`.
opened_socket : Result ℕ → RelayClient → Result (Unit {0}) × RelayClient
unfolding set_state
opened_socket (err e) c = (err e, set_state failed c)
opened_socket (ok n) c =
    let joined = set_state connected (record c { ws = open_socket n }) in
    (ok tt, record joined { tasks = joined.tasks ++ n ∷ [] })

-- `_connect_relay`; the old session is closed, and a new one takes its place.
unfoldable pub connect_relay : Result ℕ → RelayClient → Result (Unit {0}) × RelayClient
unfolding opened_socket
connect_relay answer c =
    if has_parameters c
    then opened_socket answer (record c { ws_session = opened })
    else (err not_set, c)

-- `connect`
unfoldable pub connect :
    Text → Text → Text → Result ℕ → RelayClient → Result (Unit {0}) × RelayClient
unfolding connect_relay
connect relay_url session_id token answer c =
    let c' =
      set_state connecting (record c {
        relay_url = some relay_url;
        session_id = some session_id;
        token = some token;
      }) in
    connect_relay answer
      (record c' { http_proxy = HttpProxy.start c'.http_proxy; ws_proxy = State.start c'.ws_proxy })

-- A socket or a session that is open is closed and forgotten.
abbrev pub drop_socket : Socket → Socket
drop_socket (open_socket n) = no_socket
drop_socket s = s

abbrev pub drop_session : Session → Session
drop_session opened = absent
drop_session s = s

unfoldable pub disconnect : {V : Type 0} → State.World V → RelayClient → RelayClient
unfolding set_state
disconnect world c = set_state disconnected (record c {
  should_reconnect = false;
  http_proxy = HttpProxy.stop c.http_proxy;
  ws_proxy = State.stop world c.ws_proxy;
  ws = drop_socket c.ws;
  ws_session = drop_session c.ws_session;
})

-- `send`; `takes` is whether the socket takes the frame.
send_on :
    (Bytes → Result (Unit {0})) → Bytes → Socket → RelayClient → Result (Unit {0}) × RelayClient
send_on takes frame_bytes (open_socket n) c = elim (takes frame_bytes) [
  | err e ↦ (err e, c)
  | ok u ↦ (ok u, record c { sent = c.sent ++ (n, frame_bytes) ∷ [] })
]
send_on takes frame_bytes _ c = (err not_connected, c)

unfoldable pub send :
    (Bytes → Result (Unit {0})) → Bytes → RelayClient → Result (Unit {0}) × RelayClient
unfolding send_on
send takes frame_bytes c = send_on takes frame_bytes c.ws c

-- One reconnection: what happens during the sleep, and the answer to `ws_connect`.
pub record Attempt : Type 0 where
  pub meanwhile : RelayClient → RelayClient
  pub answer : Result ℕ

-- `_reconnect_full`: the old socket and session are closed first, and errors of that are caught.
unfoldable pub reconnect_full : Result ℕ → RelayClient → Result (Unit {0}) × RelayClient
unfolding connect_relay
reconnect_full answer c =
    if has_parameters c
    then connect_relay answer
        (record c { ws = drop_socket c.ws; ws_session = drop_session c.ws_session })
    else (err not_set, c)

-- The sleep and the doubled delay.
unfoldable pub wait : (RelayClient → RelayClient) → RelayClient → RelayClient
wait meanwhile c =
    let c' = meanwhile (record c { slept = c.slept ++ c.reconnect_delay ∷ [] }) in
    record c' { reconnect_delay = min (c'.reconnect_delay * 2) c'.max_reconnect_delay }

abbrev pub reset : RelayClient → RelayClient
reset c = record c { reconnect_delay = 2 }

-- What an attempt is followed by: the next one, or the reset of the delay.
abbrev pub after_attempt : Result (Unit {0}) → RelayClient → RelayClient → RelayClient
after_attempt (err e) again c = again
after_attempt (ok u) again c = reset c

-- `_handle_reconnect` with `immediate=False`, over the attempts that are made; it is still asleep
-- where they are over.
unfoldable pub handle_reconnect : List Attempt → RelayClient → RelayClient
handle_reconnect [] c =
    if c.should_reconnect then record c { slept = c.slept ++ c.reconnect_delay ∷ [] } else c
handle_reconnect (a ∷ attempts) c =
    let tried = reconnect_full a.answer (wait a.meanwhile c) in
    let again = handle_reconnect attempts tried.1 in
    if c.should_reconnect then after_attempt tried.0 again tried.1 else c

module _ (json : Json) (lib : Urllib) (http_world : HttpProxy.World json.Value)
    (ws_world : State.World json.Value) (takes : Bytes → Result (Unit {0})) where
  -- `if response_data: await self.send(response_data)`, whose error is caught
  reply_with : Result (Option Bytes) → RelayClient → RelayClient
  unfolding send
  reply_with (ok (some (b ∷ bs))) c = (send takes (b ∷ bs) c).1
  reply_with _ c = c

  -- `_handle_relay_message`
  unfoldable pub handle_relay_message : Bytes → RelayClient → RelayClient
  unfolding reply_with
  handle_relay_message frame_bytes c =
      let (result, ws_proxy) =
        dispatch json lib http_world ws_world c.http_proxy frame_bytes c.ws_proxy in
      reply_with result (record c { ws_proxy = ws_proxy })

  -- What `async for msg in self.ws` meets; a message of another type is passed over.
  pub data Message : Type 0 where
    binary : Bytes → Message
    closes errs raises : List Attempt → Message
    passed_over : Message
    others : (RelayClient → RelayClient) → Message

  unfoldable pub read_loop : List Message → RelayClient → RelayClient
  unfolding handle_relay_message handle_reconnect
  read_loop [] c = c
  read_loop (binary frame_bytes ∷ ms) c = read_loop ms (handle_relay_message frame_bytes c)
  read_loop (closes attempts ∷ ms) c = handle_reconnect attempts (set_state closed_ c)
  read_loop (errs attempts ∷ ms) c = handle_reconnect attempts (set_state failed c)
  read_loop (raises attempts ∷ ms) c = handle_reconnect attempts (set_state failed c)
  read_loop (passed_over ∷ ms) c = read_loop ms c
  read_loop (others f ∷ ms) c = read_loop ms (f c)

  -- `_handle_messages`
  unfoldable pub handle_messages : List Message → RelayClient → RelayClient
  unfolding read_loop
  handle_messages ms c = elim c.ws [
    | no_socket ↦ c
    | open_socket n ↦ read_loop ms c
    | shut_socket n ↦ read_loop ms c
  ]
