-- ===== src/Tunnel/Frame.antt =====
-- server/app/tunnel/http_frame.py and ws_frame.py taken together: frames of all five kinds.
use lem.Base.{◌≡◌, ◌≢◌, [], ◌++◌, Result, ok, err, Part, insufficient, ◌>>=◌}
use lem.Text.{Bytes}
use lem.Json.{Json}
use lem.Tunnel.HttpFrame.{
  HttpRequestFrame, HttpResponseFrame, serialize_request, serialize_response, deserialize_request,
  deserialize_response,
}
use lem.Tunnel.HttpFrame.Request.{deserialize-serialize_request, deserialize_request-cut}
use lem.Tunnel.HttpFrame.Response.{deserialize-serialize_response, deserialize_response-cut}
use lem.Tunnel.WsFrame.{
  WsConnectFrame, WsDataFrame, WsCloseFrame, serialize_ws_connect, serialize_ws_data,
  serialize_ws_close, deserialize_ws_connect, deserialize_ws_data, deserialize_ws_close,
}
use lem.Tunnel.WsFrame.Connect.{deserialize-serialize_ws_connect, deserialize_ws_connect-cut}
use lem.Tunnel.WsFrame.Data.{deserialize-serialize_ws_data, deserialize_ws_data-cut}
use lem.Tunnel.WsFrame.Close.{deserialize-serialize_ws_close, deserialize_ws_close-cut}

-- A frame of any kind.
pub data Frame (V : Type 0) : Type 0 where
  http_request : HttpRequestFrame V → Frame V
  http_response : HttpResponseFrame V → Frame V
  ws_connect : WsConnectFrame V → Frame V
  ws_data : WsDataFrame → Frame V
  ws_close : WsCloseFrame → Frame V

-- The serializer for the frame's kind.
abbrev pub serialize : (json : Json) → Frame json.Value → Result Bytes
serialize json (http_request f) = serialize_request json f
serialize json (http_response f) = serialize_response json f
serialize json (ws_connect f) = serialize_ws_connect json f
serialize json (ws_data f) = serialize_ws_data f
serialize json (ws_close f) = serialize_ws_close f

-- The deserializer for the kind of a frame, whatever that frame holds.
abbrev pub deserialize_like : (json : Json) → Frame json.Value → Bytes → Result (Frame json.Value)
deserialize_like json (http_request f) bytes =
    deserialize_request json bytes >>= λ g. ok (http_request g)
deserialize_like json (http_response f) bytes =
    deserialize_response json bytes >>= λ g. ok (http_response g)
deserialize_like json (ws_connect f) bytes =
    deserialize_ws_connect json bytes >>= λ g. ok (ws_connect g)
deserialize_like json (ws_data f) bytes = deserialize_ws_data bytes >>= λ g. ok (ws_data g)
deserialize_like json (ws_close f) bytes = deserialize_ws_close bytes >>= λ g. ok (ws_close g)

-- A frame of any kind that could be written is what the reader for its kind gives, whatever bytes
-- follow.
pub deserialize-serialize :
    (json : Json) (f : Frame json.Value) (bytes junk : Bytes)
    → serialize json f ≡ ok bytes
    → deserialize_like json f (bytes ++ junk) ≡ ok f
deserialize-serialize json (http_request f) bytes junk w =
    rw (deserialize-serialize_request json f bytes junk w)
deserialize-serialize json (http_response f) bytes junk w =
    rw (deserialize-serialize_response json f bytes junk w)
deserialize-serialize json (ws_connect f) bytes junk w =
    rw (deserialize-serialize_ws_connect json f bytes junk w)
deserialize-serialize json (ws_data f) bytes junk w =
    rw (deserialize-serialize_ws_data f bytes junk w)
deserialize-serialize json (ws_close f) bytes junk w =
    rw (deserialize-serialize_ws_close f bytes junk w)

-- A frame of any kind that was written and is then cut off anywhere is refused by the reader for
-- its kind with `Insufficient data for ...`.
pub deserialize-cut :
    (json : Json) (f : Frame json.Value) (bytes kept lost : Bytes)
    → serialize json f ≡ ok bytes
    → bytes ≡ kept ++ lost
    → lost ≢ []
    → (part : Part) × (deserialize_like json f kept ≡ err (insufficient part))
deserialize-cut json (http_request f) bytes kept lost w e ne =
    let (part, refused) = deserialize_request-cut json f bytes kept lost w e ne in
    (part, rw refused)
deserialize-cut json (http_response f) bytes kept lost w e ne =
    let (part, refused) = deserialize_response-cut json f bytes kept lost w e ne in
    (part, rw refused)
deserialize-cut json (ws_connect f) bytes kept lost w e ne =
    let (part, refused) = deserialize_ws_connect-cut json f bytes kept lost w e ne in
    (part, rw refused)
deserialize-cut json (ws_data f) bytes kept lost w e ne =
    let (part, refused) = deserialize_ws_data-cut f bytes kept lost w e ne in (part, rw refused)
deserialize-cut json (ws_close f) bytes kept lost w e ne =
    let (part, refused) = deserialize_ws_close-cut f bytes kept lost w e ne in (part, rw refused)
