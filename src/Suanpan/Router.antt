-- ===== src/Suanpan/Router.antt =====
-- suanpan/router.py: which provider and model serve a request.
pub mod Marker
pub mod Target
pub mod Grammar
pub mod Decide
