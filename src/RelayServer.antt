-- ===== src/RelayServer.antt =====
-- cloud/relay/app: two WebSockets that share a session identifier are joined, and the frames of
-- each are forwarded to the other.
pub mod Session
pub mod Exchange
pub mod Manager
pub mod Access
