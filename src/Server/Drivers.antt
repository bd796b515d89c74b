-- ===== src/Server/Drivers.antt =====
-- server/app/drivers: the services that run in containers.
pub mod Ports
pub mod Harbor
pub mod Services
pub mod Checks
pub mod Models
pub mod Mapped
pub mod Listed
