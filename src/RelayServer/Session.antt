-- ===== src/RelayServer/Session.antt =====
-- cloud/relay/app/core/session_manager.py: `class RelaySession`. Sockets are named by numbers.
use lem.Base.{
  ℕ, ◌+◌, Bool, true, false, not, ◌&&◌, Option, none, some, List, [], ◌∷◌, ◌++◌, length,
  if◌then◌else◌,
}
use lem.Text.{Text, Bytes}

-- `to_server` and `to_client` record the frames that `dest.send_bytes` took, and `closes` the
-- sockets that `close` called `ws.close()` on.
pub record RelaySession : Type 0 where
  pub session_id : Text
  pub client_ws : Option ℕ
  pub server_ws : Option ℕ
  pub bytes_client_to_server : ℕ
  pub bytes_server_to_client : ℕ
  pub closed : Bool
  pub forwarding_started : Bool
  pub to_server : List Bytes
  pub to_client : List Bytes
  pub closes : List ℕ

-- `RelaySession.__init__`
unfoldable pub init : Text → RelaySession
init session_id = record {
  session_id = session_id;
  client_ws = none;
  server_ws = none;
  bytes_client_to_server = 0;
  bytes_server_to_client = 0;
  closed = false;
  forwarding_started = false;
  to_server = [];
  to_client = [];
  closes = [];
}

abbrev pub is_some {ℓ} : {A : Type ℓ} → Option A → Bool
is_some none = false
is_some (some a) = true

-- `add_connection`: the first socket is the client's, the second the server's.
unfoldable pub add_connection : ℕ → RelaySession → RelaySession × Bool
add_connection websocket s =
    if not (is_some s.client_ws)
    then (record s { client_ws = some websocket }, false)
    else if not (is_some s.server_ws)
    then (record s { server_ws = some websocket }, true)
    else (s, false)

unfoldable pub is_ready : RelaySession → Bool
is_ready s = is_some s.client_ws && is_some s.server_ws

abbrev socket : Option ℕ → List ℕ
socket none = []
socket (some ws) = ws ∷ []

-- `close`: an exception of `ws.close()` is caught, so both sockets are closed.
unfoldable pub close : RelaySession → RelaySession
close s =
    if s.closed
    then s
    else record s { closed = true; closes = s.closes ++ (socket s.client_ws ++ socket s.server_ws) }

pub data Direction : Type 0 where
  client_to_server server_to_client : Direction

-- The byte counter is raised before the frame is sent.
unfoldable pub count : Direction → Bytes → RelaySession → RelaySession
count client_to_server frame s = record s {
  bytes_client_to_server = s.bytes_client_to_server + length frame;
}
count server_to_client frame s = record s {
  bytes_server_to_client = s.bytes_server_to_client + length frame;
}

unfoldable pub deliver : Direction → Bytes → RelaySession → RelaySession
deliver client_to_server frame s = record s { to_server = s.to_server ++ frame ∷ [] }
deliver server_to_client frame s = record s { to_client = s.to_client ++ frame ∷ [] }

-- What a forwarding task meets: a frame that the other side takes, a frame that sending fails for,
-- or the end of its source. The last two end the task, and its `finally` closes the session.
pub data Event : Type 0 where
  passes fails : Direction → Bytes → Event
  ends : Direction → Event

unfoldable pub on_event : Event → RelaySession → RelaySession
unfolding count deliver close
on_event (passes d frame) s = deliver d frame (count d frame s)
on_event (fails d frame) s = close (count d frame s)
on_event (ends d) s = close s

-- The two tasks of a session, in the order in which they get to run, until one of them ends.
unfoldable pub exchange : List Event → RelaySession → RelaySession
exchange [] s = s
exchange (e ∷ es) s = let rest = exchange es (on_event e s) in if s.closed then s else rest
