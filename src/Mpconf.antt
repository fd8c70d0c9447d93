-- ===== src/Mpconf.antt =====
-- The configuration files and their changes, mpconf/*.py.
pub mod Transaction
pub mod Validate
pub mod Servers
