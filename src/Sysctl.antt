-- ===== src/Sysctl.antt =====
-- What the program sets on the host, sysctl/*.py.
pub mod ProxyController
pub mod InstanceOwner
