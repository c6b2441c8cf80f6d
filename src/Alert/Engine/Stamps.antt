-- ===== src/Alert/Engine/Stamps.antt =====
-- engine.rs, refresh_cache: the stamps that go from the database to the rules and the dedup store.
use mathlib.Core.List.{filter_map}
use poly_notifier.Common.{
  ℕ, ℤ, ◌==◌, int_eq, string_eq, ◌≡◌, Option, none, some, List, [], ◌∷◌, map, arith, All, All-map,
  All-flat_map, All-filter_map, All-flat_map_any, Bool-cases, inl, inr, sym, int_beq_iff, ◌∙◌,
}
use poly_notifier.Store.World.{Db}
use poly_notifier.Store.Subscriptions.{user_of}
use poly_notifier.Interfaces.{Libraries}
use poly_notifier.Alert.Rules.{AlertRule}
use poly_notifier.Alert.Dedup.{AlertDedup, load_from_alerts, load_stamp}
use poly_notifier.Alert.Dedup.Laws.{stamp, stamp-load_stamp}
use poly_notifier.Alert.Engine.Refresh.{
  AlertRow, alert_row, rows_of_subscription, rows_of_alert, alert_rows, rule_of_row,
}
use poly_notifier.Alert.Engine.Calls.{Since, Saved}

-- What a row or rule of the alert says of its last firing.
abbrev pub Stamped : ℤ → ℕ → ℤ → Option ℕ → Type 0
Stamped id t alert_id last = alert_id ≡ id → Since t last

-- The rows that a refresh reads carry the stamps of their alerts.
alert_rows-Stamped :
    (id : ℤ) (t : ℕ) (d : Db)
    → Saved id t d.alerts
    → All (λ r. Stamped id t r.alert_id r.last_triggered_at) (alert_rows d)
unfolding alert_rows
alert_rows-Stamped id t d saved =
    All-flat_map Q (rows_of_alert d) d.alerts
      (λ a h. All-flat_map_any Q (rows_of_subscription d a) _ (λ s.
        All-flat_map_any Q (λ m. map (alert_row a s m) (user_of d s)) _
          (λ m. All-map Q (alert_row a s m) (user_of d s) (λ u. h))))
      saved
  where
    Q : AlertRow → Type 0
    Q r = Stamped id t r.alert_id r.last_triggered_at

Since-load_stamp :
    (id other : ℤ) (t : ℕ) (last : Option ℕ) (d : AlertDedup)
    → (other ≡ id → Since t last)
    → Since t (stamp id d)
    → Since t (stamp id (load_stamp last other d))
Since-load_stamp id other t none d h old = old
Since-load_stamp id other t (some last) d h old =
    rw (stamp-load_stamp last other id d) (elim (Bool-cases (other == id)) [
      | inl same ↦ rw same (h ((int_beq_iff other id).0 same))
      | inr differs ↦ rw differs old
    ])

module _ (l : Libraries) where
  open l use {decimal}

  rule_of_row-keeps :
      (row : AlertRow) (rule : AlertRule decimal)
      → rule_of_row l row ≡ some rule
      → (rule.alert_id ≡ row.alert_id) × (rule.last_triggered_at ≡ row.last_triggered_at)
  unfolding rule_of_row
  rule_of_row-keeps row rule h = ground arith

  pub Since-load_from_alerts :
      (id : ℤ) (t : ℕ) (d : AlertDedup) (rules : List (AlertRule decimal))
      → All (λ r. r.alert_id ≡ id → Since t r.last_triggered_at) rules
      → Since t (stamp id d)
      → Since t (stamp id (load_from_alerts decimal d rules))
  unfolding load_from_alerts
  Since-load_from_alerts id t d [] all old = old
  Since-load_from_alerts id t d (r ∷ rules) all old =
      Since-load_from_alerts id t (load_stamp r.last_triggered_at r.alert_id d) rules all.1
        (Since-load_stamp id r.alert_id t r.last_triggered_at d all.0 old)

  -- So do the rules that are made of the rows.
  pub rules-Stamped :
      (id : ℤ) (t : ℕ) (d : Db)
      → Saved id t d.alerts
      → All
          (λ r. Stamped id t r.alert_id r.last_triggered_at)
          (filter_map (rule_of_row l) (alert_rows d))
  rules-Stamped id t d saved =
      All-filter_map (λ (r : AlertRule decimal). Stamped id t r.alert_id r.last_triggered_at)
        (rule_of_row l) (alert_rows d)
        (λ row rule h made. rule_keeps row rule h (rule_of_row-keeps row rule made))
        (alert_rows-Stamped id t d saved)
    where
      rule_keeps :
          (row : AlertRow) (rule : AlertRule decimal)
          → Stamped id t row.alert_id row.last_triggered_at
          → (rule.alert_id ≡ row.alert_id) × (rule.last_triggered_at ≡ row.last_triggered_at)
          → Stamped id t rule.alert_id rule.last_triggered_at
      rule_keeps row rule h (same, last) e = rw last (h (sym same ∙ e))
