-- ===== src/Mounts.antt =====
-- The NFS mounts, mount/*.py.
pub mod Coordinator
