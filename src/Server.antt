-- ===== src/Server.antt =====
-- The server on the user's machine, beside the tunnel.
pub mod Database
pub mod Login
pub mod Drivers
pub mod App
pub mod Endpoints
