-- ===== src/Admin.antt =====
-- crates/pn-admin: the HTTP API of the administrator.
pub mod Handlers
pub mod Auth
pub mod Routes
