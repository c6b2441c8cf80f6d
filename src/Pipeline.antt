-- ===== src/Pipeline.antt =====
-- crates/pn-alert and crates/pn-notify together: from a price tick over the channel to the log.
use poly_notifier.Common.{
  ℕ, ◌==◌, int_eq, string_eq, ◌≡◌, ap, sym, ◌∙◌, true, none, some, List, map, find, Member,
  Member-append_right,
}
use mathlib.Core.Path.{subst}
use poly_notifier.Common.Dict.{get}
use poly_notifier.Common.Sorting.{Pairwise}
use poly_notifier.Store.Rows.{User}
use poly_notifier.Store.Events.{PriceUpdate}
use poly_notifier.Interfaces.{Libraries}
use poly_notifier.Alert.Rules.{AlertRule, evaluate}
use poly_notifier.Alert.Engine.{Engine}
use poly_notifier.Alert.Engine.Handle.{request, handle_price_update}
use poly_notifier.Alert.Engine.Queueing.{Differs, handle_price_update-queues}
use poly_notifier.Notify.RateLimiter.{RateLimiter}
use poly_notifier.Notify.Telegram.{BotRegistry}
use poly_notifier.Notify.Service.{NotifyService, received, run}
use poly_notifier.Notify.Service.Draining.{HasRow, run-HasRow}

module _ (l : Libraries) where
  open l use {decimal}

  -- The service over the world that the engine leaves.
  abbrev pub service_after : Engine l → BotRegistry → RateLimiter → NotifyService
  service_after s bots limiter = record {
    world = s.world;
    bot_registry = bots;
    rate_limiter = limiter;
  }

  -- A price tick of a watched token whose rules are of different alerts, and one of these rules, which
  -- passes and whose alert has no stamp in the dedup store: once the notification service has handled
  -- what is in the channel then, the log has a row with the message of the alert, under the first user
  -- of the table with the Telegram id of the rule, whichever bot that row belongs to. The row says
  -- delivered only if Telegram accepted that message for that Telegram id. It holds whatever else was
  -- queued and whatever Telegram and the limiter refuse, if the channel is open, no statement fails
  -- and there is a user with the Telegram id.
  pub handle_price_update-HasRow :
      (update : PriceUpdate decimal) (q : AlertRule decimal) (rules : List (AlertRule decimal))
      (s : Engine l) (bots : BotRegistry) (limiter : RateLimiter) (u : User)
      → get update.token_id s.rule_cache ≡ some rules
      → Member q rules
      → Pairwise (Differs l) rules
      → evaluate decimal q update.price (get update.token_id s.prev_prices) ≡ true
      → get q.alert_id s.dedup.last_triggered ≡ none
      → ((n : ℕ) → s.channel_open n ≡ true)
      → ((n : ℕ) → s.db_fault n ≡ none)
      → find (λ x. x.telegram_id == q.user_telegram_id) s.users ≡ some u
      → (let after = (handle_price_update l update s).1 in
          let out = run (service_after after bots limiter) (map received after.queue) in
          HasRow u.id (request l q update) out.notification_log out.sent)
  handle_price_update-HasRow update q rules s bots limiter u watched m apart passes fresh there_is
        sound known =
      let after : Engine l = (handle_price_update l update s).1 in
      let (rs, done, a, queued) =
        handle_price_update-queues l update q rules s watched m apart passes fresh there_is in
      run-HasRow (request l q update) u after.queue (service_after after bots limiter)
        (subst (Member (request l q update)) (sym a.queued)
          (Member-append_right (request l q update) s.queue rs queued))
        (ap (find (λ x. x.telegram_id == q.user_telegram_id)) a.same_users ∙ known)
        (λ n. subst (λ e. e.db_fault n ≡ none) (sym a.same_env) (sound n))
