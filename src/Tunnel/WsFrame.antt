-- ===== src/Tunnel/WsFrame.antt =====
-- server/app/tunnel/ws_frame.py: WebSocket CONNECT, DATA and CLOSE as binary frames.
mod Types
mod Print
mod Parse
pub mod Opcode
pub mod Connect
pub mod Data
pub mod Close
pub use Types.*
unfoldable pub use Print.{serialize_ws_connect, serialize_ws_data, serialize_ws_close}
unfoldable pub use Parse.{
  read_ws_connect, read_ws_data, read_ws_close, deserialize_ws_connect, deserialize_ws_data,
  deserialize_ws_close,
}
