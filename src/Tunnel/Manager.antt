-- ===== src/Tunnel/Manager.antt =====
-- server/app/tunnel/manager.py: the life of the tunnel agent inside the server. The agent is seen
-- through the calls that the manager makes: its states are fields, and how its `connect` and
-- `disconnect` end are arguments. The lock makes `start` and `stop` single steps.
pub mod Enabled
use lem.Base.{
  ℕ, Bool, true, false, not, ◌&&◌, Option, none, some, List, [], ◌∷◌, ◌++◌, if◌then◌else◌, nat_beq,
  Result, ok, err, Exn, not_authenticated, ◌==◌, seq_eq,
}
use lem.Text.{Text}
use lem.Text.Methods.{lit, replace, ends_with}

pub data ConnectionState : Type 0 where
  disconnected connecting connected failed closed : ConnectionState

-- What the manager asks an agent for: `get_state`, `get_data_channel_state`, `get_connection_mode`;
-- and the URL that it was told to connect to.
pub record TunnelAgent : Type 0 where
  pub state : ConnectionState
  pub data_channel_state : Text
  pub connection_mode : Text
  pub signal_url : Text

-- `AuthState`, as far as it is read here: all but the user's address.
pub record AuthState : Type 0 where
  pub jwt_token : Text
  pub device_id : Text
  pub signaling_url : Text

pub record TunnelManager : Type 0 where
  pub agent : Option TunnelAgent
  pub is_enabled : Bool

-- `TunnelManager.__init__`
abbrev pub initial : TunnelManager
initial = record { agent = none; is_enabled = false }

abbrev pub number : ConnectionState → ℕ
number disconnected = 0
number connecting = 1
number connected = 2
number failed = 3
number closed = 4

-- An agent in any state but `DISCONNECTED`
abbrev pub is_running : Option TunnelAgent → Bool
is_running none = false
is_running (some agent) = not (nat_beq (number agent.state) 0)

-- The WebSocket URL of the signaling server.
unfoldable pub signal_url_of : Text → Text
signal_url_of signaling_url =
    let url =
      replace (lit "https://") (lit "wss://")
        (replace (lit "http://") (lit "ws://") signaling_url) in
    if ends_with (lit "/signal") url then url else url ++ lit "/signal"

-- Whether the agent's `connect` raised; `joined` is the agent behind it.
settled : TunnelAgent → Result (Unit {0}) → TunnelManager → Result (Unit {0}) × TunnelManager
settled joined (ok u) m = (ok tt, record m { agent = some joined; is_enabled = true })
settled joined (err e) m = (err e, record m { agent = none; is_enabled = false })

start_with :
    (Text → Text → Text → TunnelAgent × Result (Unit {0}))
    → Option AuthState
    → TunnelManager
    → Result (Unit {0}) × TunnelManager
unfolding settled
start_with connect none m = (ok tt, m)
start_with connect (some auth) m =
    let (joined, outcome) =
      connect (signal_url_of auth.signaling_url) auth.device_id auth.jwt_token in
    settled joined outcome m

-- `start`; `connect` makes a new agent and connects it, to a URL, as a device, with a token.
unfoldable pub start :
    (Text → Text → Text → TunnelAgent × Result (Unit {0}))
    → Option AuthState
    → TunnelManager
    → Result (Unit {0}) × TunnelManager
unfolding start_with
start connect auth m = if is_running m.agent then (ok tt, m) else start_with connect auth m

-- `stop`: an error of the agent's `disconnect` is logged, and the agent is dropped all the same.
unfoldable pub stop : TunnelManager → TunnelManager
stop m = elim m.agent [ none ↦ m | some agent ↦ record m { agent = none; is_enabled = false } ]

-- `enable`: the login is read here first, and by `start` again.
unfoldable pub enable :
    (Text → Text → Text → TunnelAgent × Result (Unit {0}))
    → Option AuthState
    → Option AuthState
    → TunnelManager
    → Result (Unit {0}) × TunnelManager
enable connect none later m = (err not_authenticated, m)
enable connect (some auth) later m = start connect later m

-- `disable`
abbrev pub disable : TunnelManager → TunnelManager
disable m = stop m

-- The dictionary that `get_status` returns: without a login, without an agent, and with one.
pub data Status : Type 0 where
  logged_out : Status
  idle : Text → Status
  active : Text → Text → ConnectionState → Text → Text → Status

abbrev pub mode_of : ConnectionState → Text
mode_of disconnected = lit "offline"
mode_of connecting = lit "connecting"
mode_of connected = lit "connected"
mode_of failed = lit "failed"
mode_of closed = lit "offline"

abbrev pub is_relayed : TunnelAgent → Bool
is_relayed agent = nat_beq (number agent.state) 2 && agent.connection_mode == lit "relay"

status_of : AuthState → Option TunnelAgent → Status
status_of auth none = idle auth.device_id
status_of auth (some agent) =
    active (if is_relayed agent then lit "relay-ws" else mode_of agent.state) auth.device_id
      agent.state agent.data_channel_state agent.connection_mode

unfoldable pub get_status : Option AuthState → TunnelManager → Status
unfolding status_of
get_status none m = logged_out
get_status (some auth) m = status_of auth m.agent

-- `is_connected`, with the agent's own `is_connected`
unfoldable pub is_connected : TunnelManager → Bool
is_connected m = elim m.agent [ none ↦ false | some agent ↦ nat_beq (number agent.state) 2 ]
