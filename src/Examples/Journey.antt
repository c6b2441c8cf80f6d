-- ===== src/Examples/Journey.antt =====
-- The way of an alert into the log at a concrete tick.
use poly_notifier.Common.{pos, int_eq, string_eq, refl, List, [], ◌∷◌, map, here, there}
use poly_notifier.Common.Dict.{get}
use poly_notifier.Store.Rows.{below}
use poly_notifier.Store.Events.{PriceUpdate}
use poly_notifier.Alert.Rules.{AlertRule, evaluate}
use poly_notifier.Alert.Engine.{Engine}
use poly_notifier.Alert.Engine.Handle.{request, handle_price_update}
use poly_notifier.Alert.Dedup.{new_dedup}
use poly_notifier.Notify.RateLimiter.{new_limiter}
use poly_notifier.Notify.Service.{received, run}
use poly_notifier.Notify.Service.Draining.{HasRow}
use poly_notifier.Pipeline.{service_after, handle_price_update-HasRow}
use poly_notifier.Examples.{cents, libraries, rule_of_ada, ada, small_world}

abbrev other_rule : AlertRule cents
other_rule = record rule_of_ada { alert_id = pos 2; alert_type = below; threshold = 90 }

abbrev rules : List (AlertRule cents)
rules = other_rule ∷ rule_of_ada ∷ []

abbrev engine : Engine libraries
engine = record {
  world = small_world;
  config = record {
    cache_refresh_interval_secs = 60;
    default_cooldown_minutes = pos 60;
    price_flush_interval_secs = 30;
  };
  rule_cache = ("tok", rules) ∷ [];
  prev_prices = [];
  dedup = new_dedup;
  condition_tokens = [];
}

abbrev tick_at_61 : PriceUpdate cents
tick_at_61 = record { token_id = "tok"; condition_id = "c"; price = 61; timestamp = 5 }

handle_price_update-HasRow_example :
    let after = (handle_price_update libraries tick_at_61 engine).1 in
    let out =
      run
        (service_after libraries after (record { bots = [] }) (new_limiter 20))
        (map received after.queue) in
    HasRow (pos 1) (request libraries rule_of_ada tick_at_61) out.notification_log out.sent
unfolding get evaluate
handle_price_update-HasRow_example =
    handle_price_update-HasRow libraries tick_at_61 rule_of_ada rules engine (record { bots = [] })
      (new_limiter 20) ada refl (there other_rule (rule_of_ada ∷ []) (here []))
      ((refl, tt), (tt, tt)) refl refl (λ n. refl) (λ n. refl) refl
