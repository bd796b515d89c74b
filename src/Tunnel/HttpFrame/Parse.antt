-- ===== src/Tunnel/HttpFrame/Parse.antt =====
-- server/app/tunnel/http_frame.py: the two `deserialize_...` functions.
use lem.Base.{nat_beq, Result, Part, wrong_type}
use lem.Text.{Bytes}
use lem.Json.{Json}
use lem.Tunnel.FrameType
use lem.Tunnel.HttpFrame.Types.{HttpRequestFrame, HttpResponseFrame}
use lem.Wire.{Reader, pure, lift, check, read_u8, read_u16, read_u32, read_text, ◌>>=◌, ◌>>◌, run}

module _ (json : Json) where
  open json use {Value, loads}

  unfoldable pub read_request : Reader (HttpRequestFrame Value)
  read_request = do
    frame_type ← read_u8 Part.frame_type
    check (nat_beq frame_type FrameType.http_request) (wrong_type FrameType.http_request frame_type)
    request_id ← read_u32 Part.request_id
    method_len ← read_u16 Part.method_len
    method ← read_text Part.method method_len
    path_len ← read_u16 Part.path_len
    path ← read_text Part.path path_len
    headers_len ← read_u32 Part.headers_len
    headers_json ← read_text Part.headers headers_len
    headers ← lift (loads headers_json)
    body_len ← read_u32 Part.body_len
    body ← read_text Part.body body_len
    pure (record {
      request_id = request_id;
      method = method;
      path = path;
      headers = headers;
      body = body;
    })

  unfoldable pub deserialize_request : Bytes → Result (HttpRequestFrame Value)
  deserialize_request = run read_request

  unfoldable pub read_response : Reader (HttpResponseFrame Value)
  read_response = do
    frame_type ← read_u8 Part.frame_type
    check (nat_beq frame_type FrameType.http_response)
        (wrong_type FrameType.http_response frame_type)
    request_id ← read_u32 Part.request_id
    status_code ← read_u16 Part.status_code
    headers_len ← read_u32 Part.headers_len
    headers_json ← read_text Part.headers headers_len
    headers ← lift (loads headers_json)
    body_len ← read_u32 Part.body_len
    body ← read_text Part.body body_len
    pure (record {
      request_id = request_id;
      status_code = status_code;
      headers = headers;
      body = body;
    })

  unfoldable pub deserialize_response : Bytes → Result (HttpResponseFrame Value)
  deserialize_response = run read_response
