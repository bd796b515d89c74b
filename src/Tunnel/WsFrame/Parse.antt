-- ===== src/Tunnel/WsFrame/Parse.antt =====
-- server/app/tunnel/ws_frame.py: the three `deserialize_...` functions.
use lem.Base.{nat_beq, Result, Part, wrong_type}
use lem.Text.{Bytes}
use lem.Json.{Json}
use lem.Tunnel.FrameType
use lem.Tunnel.WsFrame.Types.{WsConnectFrame, WsDataFrame, WsCloseFrame}
use lem.Wire.{
  Reader, pure, lift, check, read_u8, read_u16, read_u32, read_text, read_bytes, ◌>>=◌, ◌>>◌, run,
}

unfoldable pub read_ws_connect : (json : Json) → Reader (WsConnectFrame json.Value)
read_ws_connect json = do
  frame_type ← read_u8 Part.frame_type
  check (nat_beq frame_type FrameType.ws_connect) (wrong_type FrameType.ws_connect frame_type)
  connection_id ← read_u32 Part.connection_id
  url_len ← read_u16 Part.url_len
  url ← read_text Part.url url_len
  headers_len ← read_u32 Part.headers_len
  headers_json ← read_text Part.headers headers_len
  headers ← lift (json.loads headers_json)
  pure (record { connection_id = connection_id; url = url; headers = headers })

unfoldable pub deserialize_ws_connect : (json : Json) → Bytes → Result (WsConnectFrame json.Value)
deserialize_ws_connect json = run (read_ws_connect json)

unfoldable pub read_ws_data : Reader WsDataFrame
read_ws_data = do
  frame_type ← read_u8 Part.frame_type
  check (nat_beq frame_type FrameType.ws_data) (wrong_type FrameType.ws_data frame_type)
  connection_id ← read_u32 Part.connection_id
  opcode ← read_u8 Part.opcode
  payload_len ← read_u32 Part.payload_len
  payload ← read_bytes Part.payload payload_len
  pure (record { connection_id = connection_id; opcode = opcode; payload = payload })

unfoldable pub deserialize_ws_data : Bytes → Result WsDataFrame
deserialize_ws_data = run read_ws_data

unfoldable pub read_ws_close : Reader WsCloseFrame
read_ws_close = do
  frame_type ← read_u8 Part.frame_type
  check (nat_beq frame_type FrameType.ws_close) (wrong_type FrameType.ws_close frame_type)
  connection_id ← read_u32 Part.connection_id
  close_code ← read_u16 Part.close_code
  reason_len ← read_u16 Part.reason_len
  reason ← read_text Part.reason reason_len
  pure (record { connection_id = connection_id; close_code = close_code; reason = reason })

unfoldable pub deserialize_ws_close : Bytes → Result WsCloseFrame
deserialize_ws_close = run read_ws_close
