-- ===== src/Examples/Alerts.antt =====
-- The theorems on alerts at concrete rules, prices and rows.
use mathlib.Core.List.{filter_map}
use poly_notifier.Common.{
  ◌+◌, ◌*◌, ◌≤◌, ◌<◌, pos, string_eq, int_eq, ◌≡◌, ◌↔◌, refl, true, false, none, some, [], ◌∷◌,
  arith,
}
use poly_notifier.Common.Dict.{get, insert}
use poly_notifier.Store.Rows.{Alert, parse_alert_type, above, cross, ok}
use poly_notifier.Store.World.{World, now, tick, statement, enqueue, ◌>>=◌}
use poly_notifier.Store.Events.{PriceUpdate}
use poly_notifier.Alert.Rules.{AlertRule, evaluate}
use poly_notifier.Alert.Rules.Crossing.{Fires, firings, evaluate-Fires, firings-Rising}
use poly_notifier.Alert.Dedup.{
  AlertDedup, new_dedup, can_fire, can_fire_since, mark_fired, load_from_alerts,
}
use poly_notifier.Alert.Dedup.Laws.{can_fire-mark_fired, load_from_alerts_reopens}
use poly_notifier.Alert.Engine.{Engine}
use poly_notifier.Alert.Engine.Refresh.{
  refresh_cache, refresh_with, install_rules, refresh_condition_tokens, set_conditions, alert_rows,
  copy_entries, group_by_token, insert_conditions, insert_condition, push_rule, rule_of_row,
}
use poly_notifier.Alert.Engine.Flush.{flush_prices_to_db, flush_entries}
use poly_notifier.Alert.Engine.Handle.{
  handle_rule, fire_if, fire, may_fire, mark, persist_triggered, set_dedup,
}
use poly_notifier.Alert.Engine.Run.{price, flush_tick, lagged, cancelled, run}
use poly_notifier.Alert.Engine.Prices.{last_price, run-last_price}
use poly_notifier.Alert.Engine.Cache.{entry, of_token, db_rules, get-refresh_cache}
use poly_notifier.Alert.Engine.Reach.{here, next, refresh, flush}
use poly_notifier.Alert.Engine.Firing.{cooldown_respected}
use poly_notifier.Examples.{cents, cents-IsOrdered, libraries, rule_of_ada, small_db, small_world}

-- The rule of Ada fires at 60 cents and above.
evaluate-Fires_example : (evaluate cents rule_of_ada 61 none ≡ true) ↔ Fires cents above 60 61 none
evaluate-Fires_example = evaluate-Fires cents cents-IsOrdered rule_of_ada 61 none

abbrev crossing : AlertRule cents
crossing = record rule_of_ada { alert_type = cross }

firings-Rising_example : firings cents crossing (some 40) (55 ∷ 60 ∷ 60 ∷ 75 ∷ []) ≤ 1
firings-Rising_example =
    firings-Rising cents cents-IsOrdered crossing refl 40 (55 ∷ 60 ∷ 60 ∷ 75 ∷ [])
      (refl, (refl, (refl, (refl, tt))))

abbrev marked : AlertDedup
marked = record { last_triggered = (pos 1, 0) ∷ [] }

can_fire-mark_fired_example :
    (((can_fire marked (pos 1) (pos 5) (tick small_world)).0 ≡ ok true)
      ↔ (0 + 60_000_000_000 * 5 < 1_000_000_000_000 * 1))
    × (can_fire marked (pos 2) (pos 5) (tick small_world)
        ≡ can_fire new_dedup (pos 2) (pos 5) (tick small_world))
unfolding mark_fired now ◌>>=◌ insert
can_fire-mark_fired_example =
    can_fire-mark_fired new_dedup marked (pos 1) (pos 2) 5 small_world (tick small_world)
      (tick small_world) refl refl

-- The store has a firing of 100 seconds ago, the row only one of long ago.
abbrev recent : AlertDedup
recent = record { last_triggered = (pos 1, 900_000_000_000) ∷ [] }

load_from_alerts_reopens_example :
    ¬ ((can_fire recent (pos 1) (pos 5) (tick small_world)).0 ≡ ok true)
    × ((can_fire
          (load_from_alerts cents recent (rule_of_ada ∷ []))
          (pos 1)
          (pos 5)
          (tick small_world)).0
        ≡ ok true)
unfolding get
load_from_alerts_reopens_example =
    load_from_alerts_reopens cents recent [] [] rule_of_ada 5 1 900_000_000_000 (tick small_world)
      refl (omega arith) refl (omega arith) tt

abbrev row_of_ada : Alert
row_of_ada = record {
  id = pos 1;
  subscription_id = pos 1;
  alert_type = "above";
  threshold = record { bits = 60 };
  is_triggered = false;
  cooldown_minutes = pos 5;
  last_triggered_at = none;
  created_at = 0;
}

abbrev engine_in : World → Engine libraries
engine_in w = record {
  world = w;
  config = record {
    cache_refresh_interval_secs = 60;
    default_cooldown_minutes = pos 60;
    price_flush_interval_secs = 30;
  };
  rule_cache = ("tok", rule_of_ada ∷ []) ∷ [];
  prev_prices = [];
  dedup = new_dedup;
  condition_tokens = [];
}

abbrev engine : Engine libraries
engine = engine_in (record small_world { db = record small_db { alerts = row_of_ada ∷ [] } })

abbrev at_65 : PriceUpdate cents
at_65 = record { token_id = "tok"; condition_id = "c"; price = 65; timestamp = 0 }

get-refresh_cache_example :
    get "tok" (refresh_cache libraries engine).1.rule_cache
    ≡ entry libraries (of_token libraries "tok" (db_rules libraries engine))
get-refresh_cache_example = get-refresh_cache libraries engine "tok" refl

-- The alert fires, the prices are flushed, and the cache is refreshed.
abbrev later : Engine libraries
later =
    (refresh_cache libraries
      (flush_prices_to_db libraries (handle_rule libraries at_65 none rule_of_ada engine).1).1).1

cooldown_respected_example : 0 + 60_000_000_000 * 5 < 1_000_000_000_000 * 6
unfolding handle_rule evaluate may_fire can_fire can_fire_since refresh_cache ◌>>=◌ statement
    flush_prices_to_db fire fire_if mark mark_fired now persist_triggered enqueue refresh_with
    install_rules refresh_condition_tokens set_conditions filter_map load_from_alerts flush_entries
    set_dedup alert_rows copy_entries group_by_token insert_conditions insert_condition push_rule
    rule_of_row get insert parse_alert_type
cooldown_respected_example =
    cooldown_respected libraries engine later rule_of_ada rule_of_ada at_65 at_65 none (some 65)
      true 5 (λ i j le. omega (arith, le)) (λ same. cc same) (λ _. refl)
      (next (next here flush) (refresh refl)) refl (λ same. cc same) refl

run-last_price_example :
    get "tok"
      (run libraries engine (price at_65 ∷ flush_tick ∷ lagged 2 ∷ cancelled ∷ [])).prev_prices
    ≡ last_price libraries "tok" none (price at_65 ∷ flush_tick ∷ lagged 2 ∷ cancelled ∷ [])
unfolding get
run-last_price_example =
    run-last_price libraries (price at_65 ∷ flush_tick ∷ lagged 2 ∷ cancelled ∷ []) engine "tok"
