-- ===== src/Services.antt =====
-- The background services, services/*.py.
pub mod Watchdog
