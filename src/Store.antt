-- ===== src/Store.antt =====
-- crates/pn-common: the data model, the database and the calls of the outside world.
pub mod Rows
pub mod World
pub mod Events
pub mod Keeps
pub mod Triples
pub mod Steps
pub mod Users
pub mod Subscriptions
pub mod Markets
pub mod Alerts
pub mod Logs
pub mod Columns
