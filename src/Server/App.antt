-- ===== src/Server/App.antt =====
-- server/app/main.py: start-up and shutdown, and the endpoints of the tunnel. `file` is the database
-- that an earlier run left, if there is one.
pub mod Restart
use lem.Base.{
  ℕ, Bool, true, false, Option, none, some, if◌then◌else◌, Result, ok, err, Exn, not_started,
  not_connected, not_initialized, not_set, not_authenticated,
}
use lem.Text.{Text}
use lem.Text.Methods.{lit}
use lem.Server.Database.{Database, AuthJson, init_db, get_auth_state}
use lem.Server.Login.{Server, seen_by, tunnel_mode, set_tunnel_manager}
use lem.Tunnel.Manager
use lem.Tunnel.Manager.{TunnelManager, TunnelAgent, initial}

abbrev pub Connect : Type 0
Connect = Text → Text → Text → TunnelAgent × Result (Unit {0})

-- A RuntimeError
abbrev is_runtime : Exn → Bool
is_runtime not_started = true
is_runtime not_connected = true
is_runtime not_initialized = true
is_runtime not_set = true
is_runtime not_authenticated = true
is_runtime e = false

-- The reply to `/v1/tunnel/enable`: its mode, an HTTPException with its status, or another exception.
pub data EnableReply : Type 0 where
  enabled : Text → EnableReply
  unavailable unauthorized internal : EnableReply

module _ (json : AuthJson) where
  -- `lifespan` before the `yield`: an error of the tunnel is caught.
  unfoldable pub startup : Connect → Option Database → Server
  startup connect file =
      let read = get_auth_state json (init_db file) in
      let started = Manager.start connect (seen_by read.0) initial in
      set_tunnel_manager started.1 (record { db = read.1; tunnel_manager = none })

  -- `lifespan` behind the `yield`; the database file stays.
  unfoldable pub shutdown : Server → Database
  shutdown s = s.db

  status_with : Option TunnelManager → Server → Text × Server
  status_with none s = (lit "offline", s)
  status_with (some m) s =
      let read = get_auth_state json s.db in
      (tunnel_mode json (Manager.get_status (seen_by read.0) m), record s { db = read.1 })

  -- The mode that `/v1/tunnel/status` gives.
  unfoldable pub tunnel_status : Server → Text × Server
  unfolding status_with
  tunnel_status s = status_with s.tunnel_manager s

  enable_reply : Result (Unit {0}) → Text → EnableReply
  enable_reply (ok u) mode = enabled mode
  enable_reply (err e) mode = if is_runtime e then unauthorized else internal

  enable_with : Connect → Option TunnelManager → Server → EnableReply × Server
  unfolding enable_reply tunnel_status
  enable_with connect none s = (unavailable, s)
  enable_with connect (some m) s =
      let read = get_auth_state json s.db in
      let auth = seen_by read.0 in
      let done = Manager.enable connect auth auth m in
      let shown = tunnel_status (record s { db = read.1; tunnel_manager = some done.1 }) in
      (enable_reply done.0 shown.0, shown.1)

  -- `/v1/tunnel/enable`
  unfoldable pub tunnel_enable : Connect → Server → EnableReply × Server
  unfolding enable_with
  tunnel_enable connect s = enable_with connect s.tunnel_manager s

  disabled : Option TunnelManager → Option TunnelManager
  disabled none = none
  disabled (some m) = some (Manager.disable m)

  -- `/v1/tunnel/disable`
  unfoldable pub tunnel_disable : Server → Text × Server
  unfolding disabled
  tunnel_disable s = (lit "offline", record s { tunnel_manager = disabled s.tunnel_manager })
