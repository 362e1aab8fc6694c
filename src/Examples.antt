-- ===== src/Examples.antt =====
-- A concrete daemon, rows, tables and worlds, and the theorems at them.
pub mod Daemon
pub mod Worlds
pub mod Docker
pub mod Records
pub mod Service
pub mod Guards
pub mod Vms
pub mod Clients
pub mod Shells
pub mod Sessions
pub mod Startup
pub mod Keys
