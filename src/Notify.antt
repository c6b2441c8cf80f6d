-- ===== src/Notify.antt =====
-- crates/pn-notify: delivery of the queued messages.
pub mod RateLimiter
pub mod Telegram
pub mod Service
