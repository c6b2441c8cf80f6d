-- ===== src/Alert/Rules.antt =====
-- crates/pn-alert/src/rules.rs: an alert rule, and when it fires on a price.
pub mod Crossing
use poly_notifier.Common.{
  ℕ, ℤ, String, ◌≡◌, ◌↔◌, ◌⊎◌, inl, inr, Bool, true, false, ◌&&◌, ◌||◌, Option, none, some, arith,
}
use poly_notifier.Store.Rows.{AlertType, above, below, cross}
use poly_notifier.Interfaces.{DecimalOps}

module _ (n : DecimalOps) where
  open n use {Decimal, lt, le}

  pub record AlertRule : Type 0 where
    pub alert_id : ℤ
    pub subscription_id : ℤ
    pub user_telegram_id : ℤ
    pub bot_id : String
    pub token_id : String
    pub outcome_index : ℤ
    pub market_question : String
    pub alert_type : AlertType
    pub threshold : Decimal
    pub cooldown_minutes : ℤ
    pub last_triggered_at : Option ℕ

  -- `if let Some(prev) = previous_price`, of the Cross arm
  crosses : Decimal → Decimal → Option Decimal → Bool
  crosses threshold current none = false
  crosses threshold current (some prev) =
      let upward = lt prev threshold && le threshold current in
      let downward = lt threshold prev && le current threshold in upward || downward

  passes : AlertType → Decimal → Decimal → Option Decimal → Bool
  unfolding crosses
  passes above threshold current previous = le threshold current
  passes below threshold current previous = le current threshold
  passes cross threshold current previous = crosses threshold current previous

  -- AlertRule::evaluate
  unfoldable pub evaluate : AlertRule → Decimal → Option Decimal → Bool
  unfolding passes
  evaluate rule current_price previous_price =
      passes rule.alert_type rule.threshold current_price previous_price
