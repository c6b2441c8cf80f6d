-- ===== src/Alert/Engine/Handle.antt =====
-- engine.rs, handle_price_update: the rules of a token on a price tick.
use poly_notifier.Common.{
  ℤ, pos, String, ◌<>◌, Bool, true, false, Option, none, some, List, [], ◌∷◌, string_eq, ltb_ℤ,
  as_i32, if◌then◌else◌,
}
use poly_notifier.Common.Dict.{get, insert}
use poly_notifier.Store.Rows.{AlertType, above, below, cross, NotificationRequest, alert, ok}
use poly_notifier.Store.World.{World, Exec, pure, attempt, ◌>>=◌, ◌>>◌, now, execute, enqueue}
use poly_notifier.Store.Alerts.{change_alert, triggered}
use poly_notifier.Store.Events.{PriceUpdate}
use poly_notifier.Interfaces.{Libraries}
use poly_notifier.Alert.Rules.{AlertRule, evaluate}
use poly_notifier.Alert.Dedup.{AlertDedup, can_fire, mark_fired}
use poly_notifier.Alert.Engine.{Engine, EngineConfig, in_world}

-- AlertEngine::persist_triggered
unfoldable pub persist_triggered : ℤ → Exec World (Unit {0})
persist_triggered alert_id = do at ← now; execute (change_alert alert_id (triggered at)); pure tt

-- The cooldown of a rule, or the default where it is not positive.
abbrev pub cooldown_of : EngineConfig → ℤ → ℤ
cooldown_of c cooldown_minutes =
    if ltb_ℤ (pos 0) cooldown_minutes then cooldown_minutes else as_i32 c.default_cooldown_minutes

label : AlertType → String
label above = "Above"
label below = "Below"
label cross = "Cross"

module _ (l : Libraries) where
  open l use {decimal, format_utc}

  unfoldable pub format_notification :
      AlertRule decimal → decimal.Decimal → PriceUpdate decimal → String
  unfolding label
  format_notification rule price update =
      "🔔 <b>Price Alert</b>\n\n📊 "
      <> rule.market_question
      <> "\n📈 Type: "
      <> label rule.alert_type
      <> " "
      <> decimal.show (decimal.percent rule.threshold)
      <> "%\n💰 Current: "
      <> decimal.show price
      <> "\n⏰ "
      <> format_utc update.timestamp

  unfoldable pub may_fire : AlertRule decimal → Exec (Engine l) Bool
  may_fire rule s =
      in_world l (can_fire s.dedup rule.alert_id (cooldown_of s.config rule.cooldown_minutes)) s

  unfoldable pub set_dedup : AlertDedup → Exec (Engine l) (Unit {0})
  set_dedup d s = (ok tt, record s { dedup = d })

  unfoldable pub mark : ℤ → Exec (Engine l) (Unit {0})
  unfolding set_dedup
  mark alert_id s = (do d ← in_world l (mark_fired s.dedup alert_id); set_dedup d) s

  abbrev pub request : AlertRule decimal → PriceUpdate decimal → NotificationRequest
  request rule update = record {
    user_telegram_id = rule.user_telegram_id;
    bot_id = rule.bot_id;
    message = format_notification rule update.price update;
    notification_type = alert;
  }

  -- What follows once a rule has passed both tests. A failure to send or to persist is logged only.
  unfoldable pub fire : AlertRule decimal → PriceUpdate decimal → Exec (Engine l) (Unit {0})
  fire rule update = do
    mark rule.alert_id
    attempt (in_world l (enqueue (request rule update)))
    attempt (in_world l (persist_triggered rule.alert_id))
    pure tt

  unfoldable pub fire_if :
      Bool → AlertRule decimal → PriceUpdate decimal → Exec (Engine l) (Unit {0})
  fire_if true rule update = fire rule update
  fire_if false rule update = pure tt

  -- One round of the loop over the rules.
  unfoldable pub handle_rule :
      PriceUpdate decimal → Option decimal.Decimal → AlertRule decimal → Exec (Engine l) (Unit {0})
  unfolding fire_if
  handle_rule update previous rule =
      if evaluate decimal rule update.price previous
      then (do free ← may_fire rule; fire_if free rule update)
      else pure tt

  unfoldable pub handle_rules :
      PriceUpdate decimal
      → Option decimal.Decimal
      → List (AlertRule decimal)
      → Exec (Engine l) (Unit {0})
  handle_rules update previous [] = pure tt
  handle_rules update previous (rule ∷ rules) = do
    handle_rule update previous rule
    handle_rules update previous rules

  unfoldable pub handle_watched :
      PriceUpdate decimal
      → Option decimal.Decimal
      → Option (List (AlertRule decimal))
      → Exec (Engine l) (Unit {0})
  handle_watched update previous none = pure tt
  handle_watched update previous (some rules) = handle_rules update previous rules

  -- The price is stored before any rule is evaluated.
  unfoldable pub handle_price_update : PriceUpdate decimal → Exec (Engine l) (Unit {0})
  unfolding handle_watched
  handle_price_update update s =
      handle_watched update (get update.token_id s.prev_prices) (get update.token_id s.rule_cache)
        (record s { prev_prices = insert update.token_id update.price s.prev_prices })
