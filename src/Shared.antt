-- ===== src/Shared.antt =====
-- What the parts share, shared/*.py.
pub mod ProviderAuth
pub mod SubprocessMonitor
pub mod Netloc
