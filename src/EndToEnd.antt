-- ===== src/EndToEnd.antt =====
-- How the parts work together: a request and its reply over the relay, and how a relay session is
-- agreed on.
pub mod Relayed
pub mod Handshake
pub mod Fitting
pub mod Typed
pub mod Status
