-- ===== src/Store/Logs.antt =====
-- crates/pn-common/src/db.rs, the helpers on the `notification_log` and `feedback` tables.
use poly_notifier.Common.{
  ℕ, ◌+◌, ℤ, pos, negsuc, String, ◌==◌, int_eq, string_eq, Bool, true, ◌||◌, not, Option, none,
  some, List, [], ◌∷◌, ◌++◌, if◌then◌else◌, any, keep, length, take, change_where, order_by, ltb,
  get_elem?,
}
use mathlib.Core.Option
use poly_notifier.Store.Rows.{NotificationLog, Feedback, Result, ok, err, database}
use poly_notifier.Store.World.{Db, World, Exec, pure, ◌>>=◌, ◌>>◌, statement, select, execute}
use poly_notifier.Store.Users.{sql_now}

-- REFERENCES users(id)
abbrev pub has_user : ℤ → Db → Bool
has_user id d = any (λ u. u.id == id) d.users

-- REFERENCES alerts(id), with NULL allowed
abbrev pub has_alert : Option ℤ → Db → Bool
has_alert none d = true
has_alert (some id) d = any (λ a. a.id == id) d.alerts

-- CHECK(notification_type IN ('alert', 'daily_summary'))
abbrev pub is_log_type : String → Bool
is_log_type t = (t == "alert") || (t == "daily_summary")

-- INSERT INTO notification_log ... RETURNING id
unfoldable pub insert_log :
    ℤ → Option ℤ → String → String → Bool → Option String → ℕ → Db → Result (ℤ × Db)
insert_log user_id alert_id type message delivered error_message at d =
    if not (is_log_type type)
    then err (database "CHECK constraint failed: notification_type")
    else if not (has_user user_id d)
    then err (database "FOREIGN KEY constraint failed")
    else if not (has_alert alert_id d)
    then err (database "FOREIGN KEY constraint failed")
    else ok (
      pos d.next_log,
      record d {
        notification_log =
            d.notification_log
            ++ record {
              id = pos d.next_log;
              user_id = user_id;
              alert_id = alert_id;
              notification_type = type;
              message = message;
              delivered = delivered;
              error_message = error_message;
              created_at = sql_now at;
            }
              ∷ [];
        next_log = d.next_log + 1;
      },
    )

unfoldable pub insert_notification_log :
    ℤ → Option ℤ → String → String → Bool → Option String → Exec World ℤ
unfolding insert_log
insert_notification_log user_id alert_id type message delivered error_message =
    statement (insert_log user_id alert_id type message delivered error_message)

unfoldable mark_notification_delivered : ℤ → Exec World (Unit {0})
mark_notification_delivered log_id = do
  execute λ d. (
    length (keep (λ l. l.id == log_id) d.notification_log),
    record d {
      notification_log =
          change_where (λ l. l.id == log_id) (λ l. record l { delivered = true })
            d.notification_log;
    },
  )
  pure tt

unfoldable pub insert_feedback_row : ℤ → String → ℕ → Db → Result (ℤ × Db)
insert_feedback_row user_id message at d =
    if not (has_user user_id d)
    then err (database "FOREIGN KEY constraint failed")
    else ok (
      pos d.next_feedback,
      record d {
        feedback =
            d.feedback
            ++ record {
              id = pos d.next_feedback;
              user_id = user_id;
              message = message;
              created_at = sql_now at;
            }
              ∷ [];
        next_feedback = d.next_feedback + 1;
      },
    )

unfoldable pub insert_feedback : ℤ → String → Exec World ℤ
unfolding insert_feedback_row
insert_feedback user_id message = statement (insert_feedback_row user_id message)

-- ORDER BY created_at DESC
abbrev pub newest_first : List Feedback → List Feedback
newest_first = order_by (λ a b. ltb b.created_at a.created_at)

unfoldable pub get_last_feedback_time : ℤ → Exec World (Option ℕ)
get_last_feedback_time user_id = do
  row ← select (λ d. get_elem? (newest_first (keep (λ f. f.user_id == user_id) d.feedback)) 0)
  pure (Option.map (λ f. f.created_at) row)

unfoldable get_all_feedback : Exec World (List Feedback)
get_all_feedback = select (λ d. newest_first d.feedback)

-- LIMIT ?, where a negative number is no limit
abbrev limited {ℓ} : {A : Type ℓ} → ℤ → List A → List A
limited (pos n) rows = take n rows
limited (negsuc n) rows = rows

unfoldable get_recent_notifications : ℤ → ℤ → Exec World (List NotificationLog)
get_recent_notifications user_id limit = select λ d. limited limit (
    order_by (λ a b. ltb b.created_at a.created_at)
      (keep (λ l. l.user_id == user_id) d.notification_log))
