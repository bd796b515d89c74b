-- ===== src/Tunnel/WsProxy/State.antt =====
-- server/app/tunnel/ws_proxy.py: the handler's state, its start and its stop.
use lem.Base.{ℕ, List, [], ◌∷◌, ◌++◌, map, Result, ok, err, Exn}
use lem.Base.Dict.{Dict}
use lem.Text.{Text, Bytes}
use lem.Tunnel.HttpProxy.{Session, absent, opened}
use lem.Tunnel.Router.{RequestRouter}
use lem.Tunnel.WsFrame.{serialize_ws_close}

-- What the proxy does on an upstream WebSocket.
pub data Call : Type 0 where
  send_str : Text → Call
  send_bytes ping pong : Bytes → Call
  close : ℕ → Bytes → Call
  -- `ws.close()`, with the library's own code
  close_default : Call

-- Sockets and tasks are named by numbers. `sent`, `upstream` and `cancelled` record what was done:
-- the frames that `send_frame` took, the calls that upstream sockets took, and cancelled tasks.
pub record WsProxyHandler : Type 0 where
  pub router : RequestRouter
  pub connections : Dict ℕ ℕ
  pub relay_tasks : Dict ℕ ℕ
  pub session : Session
  pub next_task : ℕ
  pub sent : List Bytes
  pub upstream : List (ℕ × Call)
  pub cancelled : List ℕ

-- The rest of the world during one call.
pub record World (V : Type 0) : Type 0 where
  pub ws_connect : Text → V → Result ℕ
  pub send_frame : Bytes → Result (Unit {0})
  pub call : ℕ → Call → Result (Unit {0})
  pub message_of : Exn → Text
  pub meanwhile : WsProxyHandler → WsProxyHandler

-- `WSProxyHandler.__init__`
unfoldable pub init : RequestRouter → WsProxyHandler
init router = record {
  router = router;
  connections = [];
  relay_tasks = [];
  session = absent;
  next_task = 0;
  sent = [];
  upstream = [];
  cancelled = [];
}

unfoldable pub start : WsProxyHandler → WsProxyHandler
start h = record h { session = opened }

module _ {V : Type 0} (world : World V) where
  noted : ℕ → Call → Result (Unit {0}) → WsProxyHandler → WsProxyHandler
  noted ws c (ok _) h = record h { upstream = h.upstream ++ (ws, c) ∷ [] }
  noted ws c (err e) h = h

  -- A call on an upstream socket whose exception is caught and logged.
  unfoldable pub on_socket : ℕ → Call → WsProxyHandler → WsProxyHandler
  unfolding noted
  on_socket ws c h = noted ws c (world.call ws c) h

  delivered : Bytes → Result (Unit {0}) → WsProxyHandler → WsProxyHandler
  delivered bytes (ok _) h = record h { sent = h.sent ++ bytes ∷ [] }
  delivered bytes (err e) h = h

  written : Result Bytes → WsProxyHandler → WsProxyHandler
  unfolding delivered
  written (ok bytes) h = delivered bytes (world.send_frame bytes) h
  written (err e) h = h

  -- A CLOSE frame to the client, in a `try` of its own.
  unfoldable pub send_close : ℕ → ℕ → Text → WsProxyHandler → WsProxyHandler
  unfolding written
  send_close conn_id code reason h =
      written
        (serialize_ws_close
          (record { connection_id = conn_id; close_code = code; reason = reason }))
        h

  close_all : Dict ℕ ℕ → WsProxyHandler → WsProxyHandler
  close_all [] h = h
  close_all ((conn_id, ws) ∷ rest) h =
      close_all rest (world.meanwhile (on_socket ws close_default h))

  end_session : Session → WsProxyHandler → WsProxyHandler
  end_session opened h = record (world.meanwhile h) { session = absent }
  end_session s h = h

  -- `stop`: the tasks are cancelled, the sockets closed, both tables cleared, and the HTTP session
  -- closed. Other tasks run while a socket or the session closes.
  unfoldable pub stop : WsProxyHandler → WsProxyHandler
  unfolding close_all end_session
  stop h =
      let cancelled = record h {
        cancelled = h.cancelled ++ map (λ (_, task). task) h.relay_tasks;
      } in
      let closed_all = close_all h.connections cancelled in
      end_session closed_all.session (record closed_all { connections = []; relay_tasks = [] })

  end_session-keeps :
      (P : WsProxyHandler → Type 0)
      → ((h : WsProxyHandler) → P h → P (world.meanwhile h))
      → ((h : WsProxyHandler) (s : Session) → P h → P (record h { session = s }))
      → (s : Session) (h : WsProxyHandler) → P h
      → P (end_session s h)
  unfolding end_session
  end_session-keeps P keeps frees opened h p = frees _ absent (keeps h p)
  end_session-keeps P keeps frees _ h p = p

  -- What holds of cleared tables, and what the last wait keeps, holds of a stopped proxy.
  pub stop-ends :
      (P : WsProxyHandler → Type 0)
      → ((h : WsProxyHandler) → P h → P (world.meanwhile h))
      → ((h : WsProxyHandler) (s : Session) → P h → P (record h { session = s }))
      → ((h : WsProxyHandler) → P (record h { connections = []; relay_tasks = [] }))
      → (h : WsProxyHandler) → P (stop h)
  unfolding stop
  stop-ends P keeps frees cleared h =
      let cancelled : WsProxyHandler = record h {
        cancelled = h.cancelled ++ map (λ (_, task). task) h.relay_tasks;
      } in
      let closed_all = close_all h.connections cancelled in
      end_session-keeps P keeps frees closed_all.session
        (record closed_all { connections = []; relay_tasks = [] }) (cleared closed_all)
