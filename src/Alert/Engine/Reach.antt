-- ===== src/Alert/Engine/Reach.antt =====
-- engine.rs: the steps that the arms of the loop are made of.
use poly_notifier.Common.{
  int_eq, string_eq, ◌≡◌, ◌≢◌, refl, Bool, true, Option, none, some, List, [], ◌∷◌, inl, inr, ◌⊎◌,
}
use poly_notifier.Common.Dict.{insert, get}
use poly_notifier.Store.Rows.{ok, err, Result}
use poly_notifier.Store.World.{continue, ◌>>=◌}
use poly_notifier.Store.Events.{PriceUpdate}
use poly_notifier.Interfaces.{Libraries}
use poly_notifier.Alert.Rules.{AlertRule}
use poly_notifier.Alert.Engine.{Engine}
use poly_notifier.Alert.Engine.Refresh.{refresh_cache}
use poly_notifier.Alert.Engine.Flush.{flush_prices_to_db}
use poly_notifier.Alert.Engine.Handle.{
  handle_rule, handle_rules, handle_watched, handle_price_update,
}
use poly_notifier.Alert.Engine.Run.{
  Event, cancelled, cache_tick, flush_tick, closed, lagged, price, handle_event,
}

module _ (l : Libraries) (refreshes : Bool) where
  open l use {decimal}

  -- What the engine does between two looks at a rule: a part of an arm of its loop. Refreshes of the
  -- cache count only where they are allowed.
  pub data Step (s : Engine l) : Engine l → Type 0 where
    refresh : refreshes ≡ true → Step s (refresh_cache l s).1
    flush : Step s (flush_prices_to_db l s).1
    store :
        (update : PriceUpdate decimal)
        → Step s (record s { prev_prices = insert update.token_id update.price s.prev_prices })
    rule :
        (update : PriceUpdate decimal) (previous : Option decimal.Decimal) (r : AlertRule decimal)
        → Step s (handle_rule l update previous r s).1

  pub data Reach (s : Engine l) : Engine l → Type 0 where
    here : Reach s s
    next : {t u : Engine l} → Reach s t → Step t u → Reach s u

  handle_rules-Reach :
      (update : PriceUpdate decimal) (previous : Option decimal.Decimal)
      (rules : List (AlertRule decimal)) {s t : Engine l}
      → Reach s t
      → Reach s (handle_rules l update previous rules t).1
  unfolding handle_rules ◌>>=◌
  handle_rules-Reach update previous [] r = r
  handle_rules-Reach update previous (x ∷ rules) {s} {t} r =
      after (handle_rule l update previous x t).0 (next r (rule update previous x))
        (handle_rules-Reach update previous rules (next r (rule update previous x)))
    where
      after :
          (o : Result (Unit {0}))
          → Reach s (handle_rule l update previous x t).1
          → Reach s (handle_rules l update previous rules (handle_rule l update previous x t).1).1
          → Reach s
              (continue o
                (λ _. handle_rules l update previous rules)
                (handle_rule l update previous x t).1).1
      after (ok _) one rest = rest
      after (err _) one rest = one

  price-Reach :
      (update : PriceUpdate decimal) (s : Engine l) → Reach s (handle_price_update l update s).1
  unfolding handle_price_update ◌>>=◌
  price-Reach update s = watched (get update.token_id s.rule_cache) (next here (store update))
    where
      watched :
          (o : Option (List (AlertRule decimal))) {t : Engine l}
          → Reach s t
          → Reach s (handle_watched l update (get update.token_id s.prev_prices) o t).1
      watched none r = r
      watched (some rules) r = handle_rules-Reach update _ rules r

  -- Whatever arm of its loop the engine takes, it comes from the state before to the state after by
  -- flushes, stored prices, single rules and refreshes of the cache only, the last only where they
  -- are allowed, which the tick of the cache needs.
  handle_event-Reach :
      (event : Event l) (s : Engine l)
      → (event ≢ cache_tick) ⊎ (refreshes ≡ true)
      → Reach s (handle_event l event s)
  unfolding handle_event
  handle_event-Reach cancelled s allowed = next here flush
  handle_event-Reach cache_tick s (inl no_tick) = absurd (no_tick refl)
  handle_event-Reach cache_tick s (inr yes_tick) = next here (refresh yes_tick)
  handle_event-Reach flush_tick s allowed = next here flush
  handle_event-Reach closed s allowed = here
  handle_event-Reach (lagged skipped) s allowed = here
  handle_event-Reach (price update) s allowed = price-Reach update s
