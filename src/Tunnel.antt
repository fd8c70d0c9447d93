-- ===== src/Tunnel.antt =====
-- The connection layer, tunnel/*.py.
pub mod Retry
pub mod Trigger
pub mod Framer
pub mod HostKeyFlow
pub mod Session
pub mod Coordinator
