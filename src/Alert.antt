-- ===== src/Alert.antt =====
-- crates/pn-alert: the alert engine.
pub mod Rules
pub mod Dedup
pub mod Engine
