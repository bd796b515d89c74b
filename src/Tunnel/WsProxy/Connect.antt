-- ===== src/Tunnel/WsProxy/Connect.antt =====
-- server/app/tunnel/ws_proxy.py: `handle_connect`, `handle_data` and `handle_close`.
pub mod Paired
pub mod Effects
use lem.Base.{
  ℕ, suc, Bool, true, false, List, [], ◌∷◌, ◌++◌, nat_beq, if◌then◌else◌, Option, none, some,
  Result, ok, err, Exn, not_started, ◌>>=◌, nat_eq,
}
use lem.Base.Dict.{lookup, put, remove, contains}
use lem.Text.{Text, Bytes, encode, decode}
use lem.Text.Methods.{lit, starts_with, replace, truthy}
use lem.Json.{Json}
use lem.Tunnel.HttpProxy.{is_absent}
use lem.Tunnel.Router.{Urllib, Url, route}
use lem.Tunnel.WsFrame.{
  WsConnectFrame, WsDataFrame, WsCloseFrame, deserialize_ws_connect, deserialize_ws_data,
  deserialize_ws_close,
}
use lem.Tunnel.WsFrame.Opcode
use lem.Tunnel.WsProxy.State.{
  Call, send_str, send_bytes, ping, pong, close, WsProxyHandler, World, on_socket, send_close,
}

-- `parsed.path + ("?" + parsed.query if parsed.query else "")`
unfoldable pub path_and_query : Url → Text
path_and_query url = url.path ++ (if truthy url.query then lit "?" ++ url.query else [])

-- The WebSocket URL on the target: `https` becomes `wss`, all else `ws`.
unfoldable pub upstream_url : Text → Url → Text
unfolding path_and_query
upstream_url target_base url =
    let ws_scheme = if starts_with (lit "https://") target_base then lit "wss" else lit "ws" in
    let target_host = replace (lit "https://") [] (replace (lit "http://") [] target_base) in
    ws_scheme ++ (lit "://" ++ (target_host ++ path_and_query url))

module _ (json : Json) (lib : Urllib) (world : World json.Value) where
  open json use {Value}
  open world use {ws_connect, call, message_of, meanwhile}

  -- Up to the answer to `ws_connect`.
  unfoldable pub dial : WsProxyHandler → WsConnectFrame Value → Result ℕ
  unfolding upstream_url
  dial h frame = do
    parsed ← lib.urlparse frame.url
    target_base ← route lib h.router (path_and_query parsed)
    ws_connect (upstream_url target_base parsed) frame.headers

  -- The connection is stored, and its relay task is created.
  unfoldable pub store : ℕ → ℕ → WsProxyHandler → WsProxyHandler
  store conn_id ws h = record h {
    connections = put conn_id ws h.connections;
    relay_tasks = put conn_id h.next_task h.relay_tasks;
    next_task = suc h.next_task;
  }

  dialled : ℕ → Result ℕ → WsProxyHandler → WsProxyHandler
  dialled conn_id (ok ws) h = store conn_id ws (meanwhile h)
  dialled conn_id (err e) h =
      send_close world conn_id 1006 (lit "Connection failed: " ++ message_of e) (meanwhile h)

  -- Without a frame the `except` arm has no `frame` to name, and its inner `try` ends it.
  connect_frame : Result (WsConnectFrame Value) → WsProxyHandler → WsProxyHandler
  unfolding dialled dial store
  connect_frame (err e) h = h
  connect_frame (ok frame) h = dialled frame.connection_id (dial h frame) h

  unfoldable pub handle_connect : Bytes → WsProxyHandler → Result (Unit {0}) × WsProxyHandler
  unfolding connect_frame
  handle_connect frame_bytes h =
      if is_absent h.session
      then (err not_started, h)
      else (ok tt, connect_frame (deserialize_ws_connect json frame_bytes) h)

  send_text : ℕ → Result Text → WsProxyHandler → WsProxyHandler
  send_text ws (ok text) h = on_socket world ws (send_str text) h
  send_text ws (err e) h = h

  forward : WsDataFrame → Option ℕ → WsProxyHandler → WsProxyHandler
  unfolding send_text
  forward frame none h = h
  forward frame (some ws) h =
      if nat_beq frame.opcode Opcode.text
      then send_text ws (decode frame.payload) h
      else if nat_beq frame.opcode Opcode.binary
      then on_socket world ws (send_bytes frame.payload) h
      else if nat_beq frame.opcode Opcode.ping
      then on_socket world ws (ping frame.payload) h
      else if nat_beq frame.opcode Opcode.pong
      then on_socket world ws (pong frame.payload) h
      else h

  data_frame : Result WsDataFrame → WsProxyHandler → WsProxyHandler
  unfolding forward
  data_frame (err e) h = h
  data_frame (ok frame) h = forward frame (lookup frame.connection_id h.connections) h

  unfoldable pub handle_data : Bytes → WsProxyHandler → WsProxyHandler
  unfolding data_frame
  handle_data frame_bytes h = data_frame (deserialize_ws_data frame_bytes) h

  -- `task.cancel()` and `del self.relay_tasks[conn_id]`, if there is one
  cancel : ℕ → Option ℕ → WsProxyHandler → WsProxyHandler
  cancel conn_id none h = h
  cancel conn_id (some task) h = record h {
    cancelled = h.cancelled ++ task ∷ [];
    relay_tasks = remove conn_id h.relay_tasks;
  }

  -- Behind the `await`: `del` raises KeyError where another task has removed the connection.
  forget : ℕ → WsProxyHandler → WsProxyHandler
  unfolding cancel
  forget conn_id h =
      if contains conn_id h.connections
      then cancel conn_id (lookup conn_id h.relay_tasks)
          (record h { connections = remove conn_id h.connections })
      else h

  closed : WsCloseFrame → ℕ → Bytes → Result (Unit {0}) → WsProxyHandler → WsProxyHandler
  unfolding forget
  closed frame ws reason (err e) h = meanwhile h
  closed frame ws reason (ok u) h =
      forget frame.connection_id (meanwhile (on_socket world ws (close frame.close_code reason) h))

  close_with : WsCloseFrame → ℕ → Result Bytes → WsProxyHandler → WsProxyHandler
  unfolding closed
  close_with frame ws (err e) h = h
  close_with frame ws (ok reason) h =
      closed frame ws reason (call ws (close frame.close_code reason)) h

  close_known : WsCloseFrame → Option ℕ → WsProxyHandler → WsProxyHandler
  unfolding close_with
  close_known frame none h = h
  close_known frame (some ws) h = close_with frame ws (encode frame.reason) h

  close_frame : Result WsCloseFrame → WsProxyHandler → WsProxyHandler
  unfolding close_known
  close_frame (err e) h = h
  close_frame (ok frame) h = close_known frame (lookup frame.connection_id h.connections) h

  unfoldable pub handle_close : Bytes → WsProxyHandler → WsProxyHandler
  unfolding close_frame
  handle_close frame_bytes h = close_frame (deserialize_ws_close frame_bytes) h
