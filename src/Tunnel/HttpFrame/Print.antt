-- ===== src/Tunnel/HttpFrame/Print.antt =====
-- server/app/tunnel/http_frame.py: the two `serialize_...` functions.
use lem.Base.{[], ◌∷◌, length, Result, ok, ◌>>=◌}
use lem.Text.{Bytes, encode}
use lem.Json.{Json}
use lem.Tunnel.FrameType
use lem.Tunnel.HttpFrame.Types.{HttpRequestFrame, HttpResponseFrame}
use lem.Wire.{pack_u8, pack_u16, pack_u32, join}

module _ (json : Json) where
  open json use {Value, dumps}

  unfoldable pub serialize_request : HttpRequestFrame Value → Result Bytes
  serialize_request frame = do
    method_bytes ← encode frame.method
    path_bytes ← encode frame.path
    headers_bytes ← encode (dumps frame.headers)
    body_bytes ← encode frame.body
    frame_type ← pack_u8 FrameType.http_request
    request_id ← pack_u32 frame.request_id
    method_len ← pack_u16 (length method_bytes)
    path_len ← pack_u16 (length path_bytes)
    headers_len ← pack_u32 (length headers_bytes)
    body_len ← pack_u32 (length body_bytes)
    ok (
        join (
          frame_type ∷ request_id ∷ method_len ∷ method_bytes ∷ path_len ∷ path_bytes ∷ headers_len
          ∷ headers_bytes ∷ body_len ∷ body_bytes ∷ []))

  unfoldable pub serialize_response : HttpResponseFrame Value → Result Bytes
  serialize_response frame = do
    headers_bytes ← encode (dumps frame.headers)
    body_bytes ← encode frame.body
    frame_type ← pack_u8 FrameType.http_response
    request_id ← pack_u32 frame.request_id
    status_code ← pack_u16 frame.status_code
    headers_len ← pack_u32 (length headers_bytes)
    body_len ← pack_u32 (length body_bytes)
    ok (
        join (
          frame_type ∷ request_id ∷ status_code ∷ headers_len ∷ headers_bytes ∷ body_len
          ∷ body_bytes ∷ []))
