-- ===== src/Tunnel/HttpFrame.antt =====
-- server/app/tunnel/http_frame.py: HTTP requests and responses as binary frames.
mod Types
mod Print
mod Parse
pub mod Request
pub mod Response
pub use Types.*
unfoldable pub use Print.{serialize_request, serialize_response}
unfoldable pub use Parse.{read_request, read_response, deserialize_request, deserialize_response}
