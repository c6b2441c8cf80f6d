-- ===== src/Admin/Handlers/Reports.antt =====
-- crates/pn-admin/src/handlers.rs: the feedback and the statistics.
use poly_notifier.Common.{
  ℕ, ◌-◌, ◌*◌, ◌%◌, ℤ, int_eq, String, ◌==◌, Option, List, map, keep, length, flat_map, leb,
}
use poly_notifier.Store.Rows.{User, Feedback, Alert, ok}
use poly_notifier.Store.World.{Db, World, Exec, pure, ◌>>=◌, statement, select}
use poly_notifier.Store.Logs.{newest_first}
use poly_notifier.Admin.Handlers.{Response, list_answer}

pub record FeedbackListEntry : Type 0 where
  pub id : ℤ
  pub user_id : ℤ
  pub telegram_id : ℤ
  pub username : Option String
  pub message : String
  pub created_at : String

abbrev pub feedback_entry : (ℕ → String) → Feedback → User → FeedbackListEntry
feedback_entry strftime f u = record {
  id = f.id;
  user_id = f.user_id;
  telegram_id = u.telegram_id;
  username = u.username;
  message = f.message;
  created_at = strftime f.created_at;
}

-- FROM feedback f JOIN users u ON u.id = f.user_id ORDER BY f.created_at DESC. SQLite's strftime is a
-- parameter.
abbrev pub feedback_entries : (ℕ → String) → Db → List FeedbackListEntry
feedback_entries strftime d =
    flat_map (λ f. map (feedback_entry strftime f) (keep (λ u. u.id == f.user_id) d.users))
      (newest_first d.feedback)

unfoldable pub list_feedback : (ℕ → String) → World → Response (List FeedbackListEntry) × World
list_feedback strftime w = let (r, w') = select (feedback_entries strftime) w in (list_answer r, w')

pub record StatsResponse : Type 0 where
  pub total_users : ℕ
  pub active_subscriptions : ℕ
  pub active_alerts : ℕ
  pub active_markets : ℕ
  pub notifications_today : ℕ

-- FROM alerts a JOIN subscriptions s ON s.id = a.subscription_id WHERE s.is_active = 1
abbrev pub active_alerts_of : Db → List Alert
active_alerts_of d =
    flat_map
      (λ a.
        map (λ s. a)
          (keep (λ s. s.is_active) (keep (λ s. s.id == a.subscription_id) d.subscriptions)))
      d.alerts

-- date('now')
abbrev pub midnight : ℕ → ℕ
midnight at = at - at % (86_400 * 1_000_000_000)

unfoldable pub fetch_stats : Exec World StatsResponse
fetch_stats = do
  total_users ← select (λ d. length d.users)
  active_subscriptions ← select (λ d. length (keep (λ s. s.is_active) d.subscriptions))
  active_alerts ← select (λ d. length (active_alerts_of d))
  active_markets ← select (λ d. length (keep (λ m. m.is_active) d.markets))
  notifications_today ←
      statement
        λ at d. ok (length (keep (λ l. leb (midnight at) l.created_at) d.notification_log), d)
  pure record {
    total_users = total_users;
    active_subscriptions = active_subscriptions;
    active_alerts = active_alerts;
    active_markets = active_markets;
    notifications_today = notifications_today;
  }

unfoldable pub get_stats : World → Response StatsResponse × World
unfolding fetch_stats
get_stats w = let (r, w') = fetch_stats w in (list_answer r, w')
