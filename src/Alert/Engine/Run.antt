-- ===== src/Alert/Engine/Run.antt =====
-- engine.rs, run: the event loop of the engine.
use poly_notifier.Common.{ℕ, Bool, true, false, List, [], ◌∷◌, if◌then◌else◌}
use poly_notifier.Store.Events.{PriceUpdate}
use poly_notifier.Interfaces.{Libraries}
use poly_notifier.Alert.Engine.{Engine}
use poly_notifier.Alert.Engine.Refresh.{refresh_cache}
use poly_notifier.Alert.Engine.Flush.{flush_prices_to_db}
use poly_notifier.Alert.Engine.Handle.{handle_price_update}

module _ (l : Libraries) where
  -- What `tokio::select!` hands to the loop, in the order in which it does.
  pub data Event : Type 0 where
    cancelled cache_tick flush_tick closed : Event
    lagged : ℕ → Event
    price : PriceUpdate l.decimal → Event

  -- The state that an arm leaves; its errors are logged.
  unfoldable pub handle_event : Event → Engine l → Engine l
  handle_event cancelled s = (flush_prices_to_db l s).1
  handle_event cache_tick s = (refresh_cache l s).1
  handle_event flush_tick s = (flush_prices_to_db l s).1
  handle_event closed s = s
  handle_event (lagged skipped) s = s
  handle_event (price update) s = (handle_price_update l update s).1

  -- The arms that leave the loop.
  abbrev pub breaks : Event → Bool
  breaks cancelled = true
  breaks closed = true
  breaks _ = false

  unfoldable pub loop : Engine l → List Event → Engine l
  loop s [] = s
  loop s (event ∷ events) =
      let rest = loop (handle_event event s) events in
      if breaks event then handle_event event s else rest

  -- The initial refresh, then the loop.
  unfoldable pub run : Engine l → List Event → Engine l
  unfolding loop handle_event
  run s events = loop (refresh_cache l s).1 events
