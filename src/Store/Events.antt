-- ===== src/Store/Events.antt =====
-- crates/pn-common/src/events.rs: the price tick that the monitor broadcasts.
use poly_notifier.Common.{ℕ, String}
use poly_notifier.Interfaces.{DecimalOps}

pub record PriceUpdate (n : DecimalOps) : Type 0 where
  pub token_id : String
  pub condition_id : String
  pub price : n.Decimal
  pub timestamp : ℕ
