-- ===== src/Store/Rows.antt =====
-- crates/pn-common/src/models.rs, error.rs and events.rs: the rows of the SQLite tables, the errors
-- and the events. A NaiveDateTime is its count of nanoseconds since the earliest one.
use poly_notifier.Common.{ℕ, ℤ, String, ◌==◌, string_eq, Bool, Option, if◌then◌else◌, ◌<>◌}

-- An IEEE 754 binary64 value, by its bit pattern.
pub record F64 : Type 0 where
  pub bits : ℕ

-- error.rs. A wrapped error of a library is its text.
pub data Error : Type 0 where
  database migration config serialization not_found constraint other : String → Error

pub data Result {ℓ} (A : Type ℓ) : Type ℓ where
  ok : A → Result A
  err : Error → Result A

pub data UserTier : Type 0 where
  free premium unlimited : UserTier

-- impl Display for UserTier
unfoldable show_tier : UserTier → String
show_tier free = "free"
show_tier premium = "premium"
show_tier unlimited = "unlimited"

-- impl FromStr for UserTier
unfoldable parse_tier : String → Result UserTier
parse_tier s =
    if s == "free"
    then ok free
    else if s == "premium"
    then ok premium
    else if s == "unlimited"
    then ok unlimited
    else err (constraint ("unknown tier: " <> s))

pub record User : Type 0 where
  pub id : ℤ
  pub telegram_id : ℤ
  pub bot_id : String
  pub username : Option String
  pub tier : String
  pub max_subscriptions : ℤ
  pub timezone : String
  pub created_at : ℕ
  pub updated_at : ℕ

unfoldable parsed_tier : User → Result UserTier
unfolding parse_tier
parsed_tier user = parse_tier user.tier

pub record Market : Type 0 where
  pub id : ℤ
  pub condition_id : String
  pub question : String
  pub slug : Option String
  pub outcomes : String
  pub token_ids : String
  pub last_prices : String
  pub is_active : Bool
  pub created_at : ℕ
  pub updated_at : ℕ

pub record Subscription : Type 0 where
  pub id : ℤ
  pub user_id : ℤ
  pub market_id : ℤ
  pub outcome_index : ℤ
  pub is_active : Bool
  pub created_at : ℕ

pub data AlertType : Type 0 where
  above below cross : AlertType

-- impl Display for AlertType
unfoldable show_alert_type : AlertType → String
show_alert_type above = "above"
show_alert_type below = "below"
show_alert_type cross = "cross"

-- impl FromStr for AlertType
unfoldable pub parse_alert_type : String → Result AlertType
parse_alert_type s =
    if s == "above"
    then ok above
    else if s == "below"
    then ok below
    else if s == "cross"
    then ok cross
    else err (constraint ("unknown alert_type: " <> s))

pub record Alert : Type 0 where
  pub id : ℤ
  pub subscription_id : ℤ
  pub alert_type : String
  pub threshold : F64
  pub is_triggered : Bool
  pub cooldown_minutes : ℤ
  pub last_triggered_at : Option ℕ
  pub created_at : ℕ

unfoldable parsed_alert_type : Alert → Result AlertType
unfolding parse_alert_type
parsed_alert_type alert = parse_alert_type alert.alert_type

pub record NotificationLog : Type 0 where
  pub id : ℤ
  pub user_id : ℤ
  pub alert_id : Option ℤ
  pub notification_type : String
  pub message : String
  pub delivered : Bool
  pub error_message : Option String
  pub created_at : ℕ

pub record Feedback : Type 0 where
  pub id : ℤ
  pub user_id : ℤ
  pub message : String
  pub created_at : ℕ

pub record SubscriptionDetail : Type 0 where
  pub subscription_id : ℤ
  pub outcome_index : ℤ
  pub market_id : ℤ
  pub condition_id : String
  pub question : String
  pub token_ids : String
  pub last_prices : String
  pub user_id : ℤ
  pub telegram_id : ℤ
  pub bot_id : String
  pub timezone : String

-- events.rs
pub data NotificationType : Type 0 where
  alert daily_summary : NotificationType

-- impl Display for NotificationType
unfoldable pub show_notification_type : NotificationType → String
show_notification_type alert = "alert"
show_notification_type daily_summary = "daily_summary"

pub record NotificationRequest : Type 0 where
  pub user_telegram_id : ℤ
  pub bot_id : String
  pub message : String
  pub notification_type : NotificationType
