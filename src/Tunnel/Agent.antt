-- ===== src/Tunnel/Agent.antt =====
-- server/app/tunnel/webrtc_client.py: `class TunnelAgent`.
pub mod State
pub mod Reconnect
pub mod Messages
pub mod Requests
pub mod Untimed
pub mod Signaled
pub mod Resting
pub mod Quiet
pub mod Runs
pub mod Paced
pub mod Bounds
pub mod Fallback
pub mod Unspent
pub mod Sessions
