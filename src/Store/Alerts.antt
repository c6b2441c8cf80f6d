-- ===== src/Store/Alerts.antt =====
-- crates/pn-common/src/db.rs, the helpers on the `alerts` table.
use poly_notifier.Common.{
  ℕ, ℤ, ◌==◌, int_eq, true, false, some, List, keep, length, change_where, order_by, ltb,
}
use poly_notifier.Store.Rows.{Alert}
use poly_notifier.Store.World.{Db, World, Exec, pure, ◌>>=◌, ◌>>◌, now, select, execute}

abbrev pub alerts_of : ℤ → Db → List Alert
alerts_of subscription_id d = keep (λ a. a.subscription_id == subscription_id) d.alerts

unfoldable get_alerts_for_subscription : ℤ → Exec World (List Alert)
get_alerts_for_subscription subscription_id =
    select (λ d. order_by (λ a b. ltb a.created_at b.created_at) (alerts_of subscription_id d))

abbrev pub change_alert : ℤ → (Alert → Alert) → Db → ℕ × Db
change_alert id f d = (
  length (keep (λ a. a.id == id) d.alerts),
  record d { alerts = change_where (λ a. a.id == id) f d.alerts },
)

-- SET is_triggered = 1, last_triggered_at = ?
abbrev pub triggered : ℕ → Alert → Alert
triggered at a = record a { is_triggered = true; last_triggered_at = some at }

unfoldable record_alert_triggered : ℤ → Exec World (Unit {0})
record_alert_triggered alert_id = do
  at ← now
  execute (change_alert alert_id (triggered at))
  pure tt

unfoldable reset_alert_triggered : ℤ → Exec World (Unit {0})
reset_alert_triggered alert_id = do
  execute (change_alert alert_id (λ a. record a { is_triggered = false }))
  pure tt
