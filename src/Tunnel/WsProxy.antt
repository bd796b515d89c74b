-- ===== src/Tunnel/WsProxy.antt =====
-- server/app/tunnel/ws_proxy.py: WebSocket connections of the client, each with an upstream
-- connection and a task that relays what comes from there. A handler is a function from the state
-- to the state. What the libraries and the other end do is an argument of each call, and so is
-- what other tasks do to the state while the handler waits (`meanwhile`).
pub mod State
pub mod Connect
pub mod Relay
pub mod Paired
pub mod Runs
pub mod Reuse
