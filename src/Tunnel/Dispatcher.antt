-- ===== src/Tunnel/Dispatcher.antt =====
-- server/app/tunnel/message_dispatcher.py: a frame goes to the handler for its type.
pub mod Routes
use lem.Base.{
  ℕ, Option, none, some, [], ◌∷◌, nat_beq, if◌then◌else◌, Result, ok, err, too_short, unknown_type,
  ◌>>=◌,
}
use lem.Text.{Bytes}
use lem.Json.{Json}
use lem.Tunnel.FrameType
use lem.Tunnel.Router.{Urllib}
use lem.Tunnel.HttpProxy
use lem.Tunnel.HttpProxy.{HttpProxyHandler, handle_request}
use lem.Tunnel.WsProxy.State
use lem.Tunnel.WsProxy.State.{WsProxyHandler}
use lem.Tunnel.WsProxy.Connect.{handle_connect, handle_data, handle_close}

module _ (json : Json) (lib : Urllib) (http_world : HttpProxy.World json.Value)
    (ws_world : State.World json.Value) where
  -- What `return None` is behind a handler that may have raised.
  abbrev no_reply : Result (Unit {0}) × WsProxyHandler → Result (Option Bytes) × WsProxyHandler
  no_reply (r, ws) = ((r >>= λ _. ok none), ws)

  by_type : ℕ → HttpProxyHandler → Bytes → WsProxyHandler → Result (Option Bytes) × WsProxyHandler
  by_type frame_type http frame_bytes ws =
      if nat_beq frame_type FrameType.http_request
      then ((handle_request json lib http_world http frame_bytes >>= λ reply. ok (some reply)), ws)
      else if nat_beq frame_type FrameType.http_response
      then (ok none, ws)
      else if nat_beq frame_type FrameType.ws_connect
      then no_reply (handle_connect json lib ws_world frame_bytes ws)
      else if nat_beq frame_type FrameType.ws_data
      then (ok none, handle_data json lib ws_world frame_bytes ws)
      else if nat_beq frame_type FrameType.ws_close
      then (ok none, handle_close json lib ws_world frame_bytes ws)
      else (err (unknown_type frame_type), ws)

  -- `MessageDispatcher.dispatch`
  unfoldable pub dispatch :
      HttpProxyHandler → Bytes → WsProxyHandler → Result (Option Bytes) × WsProxyHandler
  unfolding by_type
  dispatch http [] ws = (err too_short, ws)
  dispatch http (frame_type ∷ rest) ws = by_type frame_type http (frame_type ∷ rest) ws
