-- ===== src/Signaling.antt =====
-- cloud/signaling/app/api/signal.py: the signaling server's WebSocket endpoint, which routes
-- messages between the devices of a user.
pub mod Connections
pub mod Message
pub mod Endpoint
pub mod Schemas
pub mod Accounts
