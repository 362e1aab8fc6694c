-- ===== src/Firecracker.antt =====
-- internal/firecracker: the manager of the microVMs, and what it stands on.
pub mod Host
pub mod Client
pub mod Rootfs
pub mod Shell
pub mod Polling
pub mod Vsock
pub mod Frames
pub mod Network
pub mod Manager
