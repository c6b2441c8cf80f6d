-- ===== src/Notify/Service.antt =====
-- crates/pn-notify/src/service.rs: the handling of a queued message.
pub mod Sending
pub mod Delivery
pub mod Retries
pub mod Draining
pub mod Limits
use poly_notifier.Common.{
  ℕ, zero, suc, ℤ, String, Bool, true, false, Option, none, some, List, [], ◌∷◌, if◌then◌else◌,
}
use poly_notifier.Store.Rows.{
  Result, ok, err, Error, database, migration, config, serialization, not_found, constraint, other,
  NotificationType, NotificationRequest, show_notification_type,
}
use poly_notifier.Store.World.{World, Exec, pure, attempt, ◌>>=◌, ◌>>◌}
use poly_notifier.Store.Users.{resolve_user_id_by_telegram}
use poly_notifier.Store.Logs.{insert_notification_log}
use poly_notifier.Notify.RateLimiter.{RateLimiter, check_and_consume}
use poly_notifier.Notify.Telegram.{BotRegistry, send_message}

pub record NotifyService : Type 0 where
  pub world : World
  pub open world use *
  pub bot_registry : BotRegistry
  pub rate_limiter : RateLimiter

abbrev pub max_retries : ℕ
max_retries = 3

-- An action on the database, the clock or the Telegram API.
abbrev pub in_world {ℓ} : {A : Type ℓ} → Exec World A → Exec NotifyService A
in_world m s = let (r, w) = m s.world in (r, record s { world = w })

-- The loop of `send_with_retries`, by the attempts that are left. The pause of RETRY_DELAY between
-- two attempts changes no state.
unfoldable pub send_from : BotRegistry → NotificationRequest → ℕ → Error → Exec World (Unit {0})
send_from bots req zero last_error w = (err last_error, w)
send_from bots req (suc left) last_error w =
    let (r, w') = send_message bots req.bot_id req.user_telegram_id req.message w in
    elim r [ ok _ ↦ (ok tt, w') | err e ↦ send_from bots req left e w' ]

unfoldable pub send_with_retries : BotRegistry → NotificationRequest → Exec World (Unit {0})
unfolding send_from
send_with_retries bots req = send_from bots req max_retries (other "")

unfoldable pub log_attempt :
    ℤ → Option ℤ → NotificationType → String → Bool → Option String → Exec World (Unit {0})
unfolding show_notification_type
log_attempt user_id alert_id notification_type message delivered error_message = do
  insert_notification_log user_id alert_id (show_notification_type notification_type) message
      delivered error_message
  pure tt

-- The error text of a send: the source has it as a String.
abbrev pub error_text : Error → String
error_text (database text) = text
error_text (migration text) = text
error_text (config text) = text
error_text (serialization text) = text
error_text (not_found text) = text
error_text (constraint text) = text
error_text (other text) = text

abbrev pub log_of : Result (Unit {0}) → ℤ → NotificationRequest → Exec World (Unit {0})
log_of (ok _) user_id req = log_attempt user_id none req.notification_type req.message true none
log_of (err e) user_id req =
    log_attempt user_id none req.notification_type req.message false (some (error_text e))

-- The delivery to a known user within the limit.
unfoldable pub deliver : ℤ → NotificationRequest → Exec NotifyService (Unit {0})
deliver user_id req s = in_world (deliver_by s.bot_registry) s
  where
    deliver_by : BotRegistry → Exec World (Unit {0})
    deliver_by bots = do
      send_result ← attempt (send_with_retries bots req)
      log_of send_result user_id req

-- self.rate_limiter.check_and_consume(...)
unfoldable pub allow : ℤ → Exec NotifyService Bool
allow telegram_id s =
    let (r, w) = check_and_consume s.rate_limiter telegram_id s.world in
    elim r [
      | ok (answer, limiter) ↦ (ok answer, record s { world = w; rate_limiter = limiter })
      | err e ↦ (err e, record s { world = w })
    ]

unfoldable pub deliver_if : Bool → ℤ → NotificationRequest → Exec NotifyService (Unit {0})
unfolding deliver
deliver_if true user_id req = deliver user_id req
deliver_if false user_id req =
    in_world (
      log_attempt user_id none req.notification_type req.message false (some "rate limit exceeded"))

-- A user that the database does not know is served without limit and without log.
unfoldable pub serve_unknown : NotificationRequest → Exec NotifyService (Unit {0})
serve_unknown req s = (ok tt, record s { world = (send_with_retries s.bot_registry req s.world).1 })

unfoldable pub handle_for : Option ℤ → NotificationRequest → Exec NotifyService (Unit {0})
unfolding deliver_if allow serve_unknown
handle_for none req = serve_unknown req
handle_for (some user_id) req = do
  answer ← allow req.user_telegram_id
  deliver_if answer user_id req

unfoldable pub handle : NotificationRequest → Exec NotifyService (Unit {0})
unfolding handle_for
handle req = do
  user_id_opt ← in_world (resolve_user_id_by_telegram req.user_telegram_id)
  handle_for user_id_opt req

-- What `tokio::select!` hands to the loop; an error of `handle` is logged.
pub data Incoming : Type 0 where
  cancelled closed : Incoming
  received : NotificationRequest → Incoming

unfoldable pub run : NotifyService → List Incoming → NotifyService
unfolding handle
run s [] = s
run s (cancelled ∷ events) = s
run s (closed ∷ events) = s
run s (received req ∷ events) = run (handle req s).1 events
