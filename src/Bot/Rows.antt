-- ===== src/Bot/Rows.antt =====
-- crates/pn-bot/src/dialogues.rs and handlers.rs: the SQL statements of the handlers, under the
-- constraints of crates/pn-common/migrations and with foreign keys on.
use poly_notifier.Common.{
  ℕ, ◌+◌, ℤ, pos, String, ◌==◌, int_eq, string_eq, Bool, true, false, not, ◌&&◌, ◌||◌, Option, none,
  some, List, [], ◌∷◌, ◌++◌, map, if◌then◌else◌, find, any, keep, length, change_where, order_by,
  ltb, flat_map, get_elem?,
}
use poly_notifier.Store.Rows.{F64, Subscription, Alert, NotificationLog, Result, ok, err, database}
use poly_notifier.Store.World.{Db}
use poly_notifier.Store.Users.{sql_now}
use poly_notifier.Store.Logs.{has_user}
use poly_notifier.Store.Alerts.{alerts_of}

-- WHERE user_id = ? AND market_id = ? AND outcome_index = ?
abbrev pub is_for : ℤ → ℤ → ℤ → Subscription → Bool
is_for user_id market_id outcome_index s =
    (s.user_id == user_id) && ((s.market_id == market_id) && (s.outcome_index == outcome_index))

abbrev pub new_subscription : ℤ → ℤ → ℤ → ℤ → ℕ → Subscription
new_subscription id user_id market_id outcome_index at = record {
  id = id;
  user_id = user_id;
  market_id = market_id;
  outcome_index = outcome_index;
  is_active = true;
  created_at = sql_now at;
}

-- INSERT OR IGNORE INTO subscriptions, with rows_affected. OR IGNORE passes over a row that UNIQUE
-- refuses, not over one that a foreign key refuses.
unfoldable pub insert_subscription : ℤ → ℤ → ℤ → ℕ → Db → Result (ℕ × Db)
insert_subscription user_id market_id outcome_index at d =
    if any (is_for user_id market_id outcome_index) d.subscriptions
    then ok (0, d)
    else if not (has_user user_id d && any (λ m. m.id == market_id) d.markets)
    then err (database "FOREIGN KEY constraint failed")
    else ok (
      1,
      record d {
        subscriptions =
            d.subscriptions
            ++ new_subscription (pos d.next_subscription) user_id market_id outcome_index at ∷ [];
        next_subscription = d.next_subscription + 1;
      },
    )

-- SELECT id FROM subscriptions WHERE ... AND is_active = 1
abbrev pub find_subscription : ℤ → ℤ → ℤ → Db → Option Subscription
find_subscription user_id market_id outcome_index d =
    find (λ s. is_for user_id market_id outcome_index s && s.is_active) d.subscriptions

-- CHECK(alert_type IN ('above', 'below', 'cross'))
abbrev pub is_alert_type : String → Bool
is_alert_type t = (t == "above") || ((t == "below") || (t == "cross"))

abbrev pub new_alert : ℤ → ℤ → String → F64 → ℕ → Alert
new_alert id subscription_id alert_type threshold at = record {
  id = id;
  subscription_id = subscription_id;
  alert_type = alert_type;
  threshold = threshold;
  is_triggered = false;
  cooldown_minutes = pos 60;
  last_triggered_at = none;
  created_at = sql_now at;
}

-- INSERT INTO alerts (subscription_id, alert_type, threshold), with the defaults of the table
unfoldable pub insert_alert_row : ℤ → String → F64 → ℕ → Db → Result (ℕ × Db)
insert_alert_row subscription_id alert_type threshold at d =
    if not (is_alert_type alert_type)
    then err (database "CHECK constraint failed: alert_type")
    else if not (any (λ s. s.id == subscription_id) d.subscriptions)
    then err (database "FOREIGN KEY constraint failed")
    else ok (
      1,
      record d {
        alerts =
            d.alerts ++ new_alert (pos d.next_alert) subscription_id alert_type threshold at ∷ [];
        next_alert = d.next_alert + 1;
      },
    )

abbrev oldest_first : List Alert → List Alert
oldest_first = order_by (λ a b. ltb a.created_at b.created_at)

-- SELECT alert_type, threshold FROM alerts WHERE subscription_id = ? ORDER BY created_at
abbrev pub alert_rows : ℤ → Db → List Alert
alert_rows subscription_id d = oldest_first (alerts_of subscription_id d)

abbrev is_first : List Alert → Alert → Bool
is_first [] a = false
is_first (b ∷ rows) a = a.id == b.id

-- subscription_id = ? AND id = (SELECT id FROM alerts WHERE ... ORDER BY created_at LIMIT 1)
abbrev pub is_oldest : ℤ → Db → Alert → Bool
is_oldest subscription_id d a =
    (a.subscription_id == subscription_id) && is_first (alert_rows subscription_id d) a

-- UPDATE alerts SET alert_type = ?, threshold = ?, of the oldest alert of a subscription
unfoldable pub change_oldest_alert : ℤ → String → F64 → Db → Result (ℕ × Db)
change_oldest_alert subscription_id alert_type threshold d =
    if any (is_oldest subscription_id d) d.alerts && not (is_alert_type alert_type)
    then err (database "CHECK constraint failed: alert_type")
    else ok (
      length (keep (is_oldest subscription_id d) d.alerts),
      record d {
        alerts =
            change_where (is_oldest subscription_id d)
              (λ a. record a { alert_type = alert_type; threshold = threshold }) d.alerts;
      },
    )

-- ON DELETE SET NULL of notification_log.alert_id
abbrev forget_alerts : List Alert → Option ℤ → Option ℤ
forget_alerts gone none = none
forget_alerts gone (some id) = if any (λ a. a.id == id) gone then none else some id

-- DELETE FROM subscriptions WHERE id = ?, with ON DELETE CASCADE of alerts.subscription_id
unfoldable pub delete_subscription : ℤ → Db → ℕ × Db
delete_subscription id d =
    let gone =
      keep (λ a. any (λ s. (s.id == id) && (s.id == a.subscription_id)) d.subscriptions) d.alerts in
    (
      length (keep (λ s. s.id == id) d.subscriptions),
      record d {
        subscriptions = keep (λ s. not (s.id == id)) d.subscriptions;
        alerts =
            keep (λ a. not (any (λ s. (s.id == id) && (s.id == a.subscription_id)) d.subscriptions))
              d.alerts;
        notification_log =
            map {A = NotificationLog} (λ l. record l { alert_id = forget_alerts gone l.alert_id })
              d.notification_log;
      },
    )

-- UPDATE users SET timezone = ?, updated_at = ? WHERE id = ?
abbrev pub set_timezone : String → ℕ → ℤ → Db → ℕ × Db
set_timezone tz at id d = (
  length (keep (λ u. u.id == id) d.users),
  record d {
    users =
        change_where (λ u. u.id == id) (λ u. record u { timezone = tz; updated_at = at }) d.users;
  },
)

-- SELECT m.question FROM subscriptions s JOIN markets m ON m.id = s.market_id WHERE s.id = ?
abbrev pub question_of : ℤ → Db → Option String
question_of id d =
    get_elem?
      (flat_map (λ s. map (λ m. m.question) (keep (λ m. m.id == s.market_id) d.markets))
        (keep (λ s. s.id == id) d.subscriptions))
      0

-- SELECT outcomes FROM markets WHERE condition_id = ?
abbrev pub outcomes_of : String → Db → Option String
outcomes_of condition_id d = elim (find (λ m. m.condition_id == condition_id) d.markets) [
  | some m ↦ some m.outcomes
  | none ↦ none
]
