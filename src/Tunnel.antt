-- ===== src/Tunnel.antt =====
-- server/app/tunnel: the frames, the handlers and the clients of the tunnel.
pub mod FrameType
pub mod HttpFrame
pub mod WsFrame
pub mod Frame
pub mod Router
pub mod HttpProxy
pub mod WsProxy
pub mod Dispatcher
pub mod RelayClient
pub mod Manager
pub mod Agent
