-- ===== src/Polymarket.antt =====
-- crates/pn-polymarket: the clients of Polymarket's web services.
pub mod Types
pub mod Http
pub mod Gamma
pub mod Clob
pub mod Ws
