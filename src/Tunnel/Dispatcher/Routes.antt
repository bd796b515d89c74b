-- ===== src/Tunnel/Dispatcher/Routes.antt =====
-- server/app/tunnel/message_dispatcher.py: every frame that the codec writes reaches its handler.
use lem.Base.{◌≡◌, ◌++◌, Option, none, some, Result, ok, ◌>>=◌}
use lem.Text.{Bytes}
use lem.Json.{Json}
use lem.Tunnel.Router.{Urllib}
use lem.Tunnel.HttpFrame.Request.{serialize_request-type}
use lem.Tunnel.HttpFrame.Response.{serialize_response-type}
use lem.Tunnel.WsFrame.Connect.{serialize_ws_connect-type}
use lem.Tunnel.WsFrame.Data.{serialize_ws_data-type}
use lem.Tunnel.WsFrame.Close.{serialize_ws_close-type}
use lem.Tunnel.HttpProxy
use lem.Tunnel.HttpProxy.{HttpProxyHandler, handle_request}
use lem.Tunnel.WsProxy.State
use lem.Tunnel.WsProxy.State.{WsProxyHandler}
use lem.Tunnel.WsProxy.Connect.{handle_connect, handle_data, handle_close}
use lem.Tunnel.Frame.{Frame, http_request, http_response, ws_connect, ws_data, ws_close, serialize}
use lem.Tunnel.Dispatcher.{dispatch}

module _ (json : Json) (lib : Urllib) (http_world : HttpProxy.World json.Value)
    (ws_world : State.World json.Value) (http : HttpProxyHandler) (ws : WsProxyHandler)
    (bytes : Bytes) where
  -- What is to become of a frame: a request is answered by the HTTP proxy, a response is dropped,
  -- and the WebSocket frames go to the WebSocket proxy.
  abbrev pub handled : Frame json.Value → Result (Option Bytes) × WsProxyHandler
  handled (http_request f) =
      ((handle_request json lib http_world http bytes >>= λ reply. ok (some reply)), ws)
  handled (http_response f) = (ok none, ws)
  handled (ws_connect f) =
      let (r, ws') = handle_connect json lib ws_world bytes ws in ((r >>= λ _. ok none), ws')
  handled (ws_data f) = (ok none, handle_data json lib ws_world bytes ws)
  handled (ws_close f) = (ok none, handle_close json lib ws_world bytes ws)

module _ (json : Json) (lib : Urllib) (http_world : HttpProxy.World json.Value)
    (ws_world : State.World json.Value) (http : HttpProxyHandler) (ws : WsProxyHandler)
    (bytes junk : Bytes) where
  -- A frame that was written, whatever follows it, goes to the handler of its own kind: an HTTP
  -- request is answered by the HTTP proxy and leaves the WebSocket proxy alone; a response is
  -- dropped; the three WebSocket frames go to the WebSocket proxy and are not answered.
  pub dispatch-written :
      (f : Frame json.Value)
      → serialize json f ≡ ok bytes
      → dispatch json lib http_world ws_world http (bytes ++ junk) ws
        ≡ handled json lib http_world ws_world http ws (bytes ++ junk) f
  unfolding dispatch
  dispatch-written (http_request f) w =
      let (rest, e) = serialize_request-type json f bytes w in rw e
  dispatch-written (http_response f) w =
      let (rest, e) = serialize_response-type json f bytes w in rw e
  dispatch-written (ws_connect f) w =
      let (rest, e) = serialize_ws_connect-type json f bytes w in rw e
  dispatch-written (ws_data f) w = let (rest, e) = serialize_ws_data-type f bytes w in rw e
  dispatch-written (ws_close f) w = let (rest, e) = serialize_ws_close-type f bytes w in rw e
