-- ===== src/Monitor.antt =====
-- crates/pn-monitor: the feed of live prices for the subscribed tokens.
pub mod Aggregator
pub mod Manager
pub mod Service
