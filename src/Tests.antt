-- ===== src/Tests.antt =====
-- Runs of the definitions on concrete inputs, and the theorems at inputs that meet their hypotheses.
mod Fixtures
mod Frames
mod Http
mod Ws
mod Cloud
mod Relay
mod Manager
mod Accounts
mod Agent
mod Server
mod Drivers
mod EndToEnd
