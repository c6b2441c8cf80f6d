-- ===== src/Examples/Notices.antt =====
-- The theorems on deliveries at concrete messages.
use poly_notifier.Common.{
  ℕ, ◌+◌, ◌≤◌, ◌*◌, pos, int_eq, string_eq, ◌≡◌, ◌↔◌, refl, none, List, [], ◌∷◌, arith,
}
use poly_notifier.Common.Dict.{get, insert}
use poly_notifier.Store.Rows.{ok, NotificationRequest, alert}
use poly_notifier.Notify.RateLimiter.{new_limiter, check_at, check_and_consume, renew, consume}
use poly_notifier.Notify.RateLimiter.Bounds.{first_minute, any_minute, count-le}
use poly_notifier.Notify.RateLimiter.Steps.{Call, after_calls, accepted, count_of}
use poly_notifier.Notify.Telegram.{BotRegistry, get_bot, send_message}
use poly_notifier.Notify.Service.{
  NotifyService, send_with_retries, handle, Incoming, received, run, log_attempt,
}
use poly_notifier.Notify.Service.Delivery.{Logged, handle_logs}
use poly_notifier.Notify.Service.Limits.{sends_to, run-sends_to}
use poly_notifier.Store.World.{◌>>=◌, statement, now, telegram_send}
use poly_notifier.Store.Users.{resolve_user_id_by_telegram}
use poly_notifier.Store.Logs.{insert_notification_log}
use poly_notifier.Notify.Service.Retries.{OneOfThree, send_with_retries-ok}
use poly_notifier.Examples.{ada, small_world, calm_env}

abbrev second : ℕ
second = 1_000_000_000

abbrev notice : NotificationRequest
notice = record {
  user_telegram_id = pos 77;
  bot_id = "7";
  message = "up";
  notification_type = alert;
}

abbrev bots : BotRegistry
bots = record { bots = ("7", "7:key") ∷ [] }

abbrev service : ℕ → NotifyService
service max = record { world = small_world; bot_registry = bots; rate_limiter = new_limiter max }

handle_logs_example :
    let out = handle notice (service 2) in Logged notice (pos 1) [] [] (out.0, out.1.world)
handle_logs_example = handle_logs notice (service 2) ada refl (λ i. refl)

-- The same, with a clock that stands at the second minute.
abbrev quick_service : ℕ → NotifyService
quick_service max = record (service max) {
  world = record small_world { env = record calm_env { clock = λ i. 70 * second } };
}

abbrev four_notices : List Incoming
four_notices = received notice ∷ received notice ∷ received notice ∷ received notice ∷ []

run-sends_to_example : sends_to (pos 77) (run (quick_service 1) four_notices).sent ≤ 0 + 2 * 1
unfolding after_calls
run-sends_to_example =
    run-sends_to (pos 77) ada (60 * second) 1 [] four_notices (quick_service 1) refl
      (λ i. (omega arith, omega arith)) refl

-- Of the four messages one goes out.
one_goes_out : sends_to (pos 77) (run (quick_service 1) four_notices).sent ≡ 1
unfolding run handle resolve_user_id_by_telegram check_and_consume log_attempt
    insert_notification_log send_message ◌>>=◌ statement now send_with_retries telegram_send insert
one_goes_out = refl

send_with_retries-ok_example :
    (((send_with_retries bots notice small_world).0 ≡ ok tt) ↔ OneOfThree (λ i. none) 0)
    × ((send_with_retries bots notice small_world).1.calls ≤ 0 + 3)
unfolding get_bot get
send_with_retries-ok_example = send_with_retries-ok bots notice "7:key" small_world refl

-- Two calls late in one window, and two in the next one.
abbrev burst : List Call
burst =
    (pos 77, 50 * second)
    ∷ (pos 77, 59 * second)
    ∷ (pos 77, 61 * second)
    ∷ (pos 77, 62 * second)
    ∷ []

abbrev opening : List Call
opening = (pos 77, 1 * second) ∷ []

any_minute_example : accepted (pos 77) (after_calls (new_limiter 3) opening) burst ≤ 2 * 3
any_minute_example = any_minute (pos 77) 3 (50 * second) opening burst (omega arith)

first_minute_example : accepted (pos 77) (new_limiter 3) burst ≤ 3
first_minute_example = first_minute (pos 77) 3 (50 * second) burst (omega arith)

count-le_example : count_of (get (pos 77) (after_calls (new_limiter 3) burst).windows) ≤ 3
count-le_example = count-le (pos 77) 3 burst

-- More than the cap passes within a minute: of four calls within 13 seconds, three pass a cap of two.
burst_passes : accepted (pos 77) (after_calls (new_limiter 2) ((pos 77, 0) ∷ [])) burst ≡ 3
unfolding accepted after_calls check_at renew consume get insert
burst_passes = refl
