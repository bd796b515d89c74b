-- ===== src/Tunnel/WsFrame/Print.antt =====
-- server/app/tunnel/ws_frame.py: the three `serialize_...` functions.
use lem.Base.{[], ◌∷◌, length, Result, ok, ◌>>=◌}
use lem.Text.{Bytes, encode}
use lem.Json.{Json}
use lem.Tunnel.FrameType
use lem.Tunnel.WsFrame.Types.{WsConnectFrame, WsDataFrame, WsCloseFrame}
use lem.Wire.{pack_u8, pack_u16, pack_u32, join}

unfoldable pub serialize_ws_connect : (json : Json) → WsConnectFrame json.Value → Result Bytes
serialize_ws_connect json frame = do
  url_bytes ← encode frame.url
  headers_bytes ← encode (json.dumps frame.headers)
  frame_type ← pack_u8 FrameType.ws_connect
  connection_id ← pack_u32 frame.connection_id
  url_len ← pack_u16 (length url_bytes)
  headers_len ← pack_u32 (length headers_bytes)
  ok (join (frame_type ∷ connection_id ∷ url_len ∷ url_bytes ∷ headers_len ∷ headers_bytes ∷ []))

unfoldable pub serialize_ws_data : WsDataFrame → Result Bytes
serialize_ws_data frame = do
  frame_type ← pack_u8 FrameType.ws_data
  connection_id ← pack_u32 frame.connection_id
  opcode ← pack_u8 frame.opcode
  payload_len ← pack_u32 (length frame.payload)
  ok (join (frame_type ∷ connection_id ∷ opcode ∷ payload_len ∷ frame.payload ∷ []))

unfoldable pub serialize_ws_close : WsCloseFrame → Result Bytes
serialize_ws_close frame = do
  reason_bytes ← encode frame.reason
  frame_type ← pack_u8 FrameType.ws_close
  connection_id ← pack_u32 frame.connection_id
  close_code ← pack_u16 frame.close_code
  reason_len ← pack_u16 (length reason_bytes)
  ok (join (frame_type ∷ connection_id ∷ close_code ∷ reason_len ∷ reason_bytes ∷ []))
