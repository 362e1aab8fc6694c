-- ===== src/Docker.antt =====
-- internal/sandbox: the Docker backend.
pub mod Client
pub mod Stream
pub mod Manager
pub mod Shell
pub mod Adapter
