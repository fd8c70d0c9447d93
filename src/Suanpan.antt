-- ===== src/Suanpan.antt =====
-- The routing gateway, suanpan/*.py.
pub mod Config
pub mod Router
pub mod Usage
pub mod Middleware
pub mod Compat
