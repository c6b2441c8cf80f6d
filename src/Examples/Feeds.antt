-- ===== src/Examples/Feeds.antt =====
-- The theorems on the monitor at concrete feeds.
use poly_notifier.Common.{
  ◌≤◌, String, string_eq, ◌≡◌, refl, false, some, List, [], ◌∷◌, map, flat_map, any, arith,
}
use poly_notifier.Store.Rows.{ok, err, serialization}
use poly_notifier.Store.World.{World}
use poly_notifier.Store.Subscriptions.{subscribed_markets}
use poly_notifier.Monitor.Aggregator.{member, get_active_token_ids}
use poly_notifier.Monitor.Aggregator.Laws.{
  lists, get_active_token_ids-member, get_active_token_ids-err,
}
use poly_notifier.Polymarket.Types.{price_change, unknown}
use poly_notifier.Monitor.Manager.{
  Duration, ConnectionManager, calculate_backoff, Session, over, Progress, reconnects, run_sessions,
  idle, updates_of,
}
use poly_notifier.Monitor.Manager.Backoff.{
  delay_of, streaks, calculate_backoff-IsBounded, run_sessions-delays,
}
use poly_notifier.Monitor.Service.{Monitor, refreshed, run, refresh_tick, exited}
use poly_notifier.Monitor.Service.Follows.{Consistent, run-Consistent, refreshed-follows}
use poly_notifier.Examples.{cents, one_text, rain, small_db, small_world}

abbrev manager : ConnectionManager
manager = record {
  ws_ping_interval = 10_000_000_000;
  reconnect_base_delay = 1_000_000_000;
  reconnect_max_delay = 60_000_000_000;
}

calculate_backoff_example :
    (d : Duration) × ((e : Duration) × ((calculate_backoff manager 2 ≡ some d)
        × ((calculate_backoff manager 9 ≡ some e) × ((d ≤ e) × (e ≤ 60_000_000_000)))))
calculate_backoff_example = calculate_backoff-IsBounded manager 2 9 (omega arith) (omega arith)

-- Two silent sessions, one with a price, one silent.
abbrev sessions : List (Session cents)
sessions =
    ([], over)
    ∷ ((unknown "pong", 1) ∷ [], over)
    ∷ ((price_change "tok" 55, 2) ∷ [], over)
    ∷ ([], over)
    ∷ []

run_sessions_example :
    (p : Progress cents) × ((run_sessions cents manager [] sessions (idle cents) ≡ reconnects p)
      × ((p.published ≡ flat_map (λ s. updates_of cents [] s.0) sessions)
          × (p.delays ≡ map (delay_of manager) (streaks cents manager [] 0 sessions))))
run_sessions_example =
    run_sessions-delays cents manager [] sessions (omega arith) (refl, (refl, (refl, (refl, tt))))
      (omega arith)

get_active_token_ids-member_example :
    (ids : List String) × (((get_active_token_ids one_text small_world).0 ≡ ok ids)
      × ((t : String)
          → member t ids ≡ any (λ m. lists one_text t m.token_ids) (subscribed_markets small_db)))
get_active_token_ids-member_example = get_active_token_ids-member one_text small_world refl refl

abbrev bad_world : World
bad_world = record small_world {
  db = record small_db { markets = record rain { token_ids = "bad" } ∷ [] };
}

get_active_token_ids-err_example :
    (row : String) × ((get_active_token_ids one_text bad_world).0 ≡ err (serialization row))
get_active_token_ids-err_example = get_active_token_ids-err one_text bad_world refl refl

run-Consistent_example :
    Consistent one_text
      (run one_text 1 false (refresh_tick ∷ exited 0 false ∷ refresh_tick ∷ []) small_world)
run-Consistent_example =
    run-Consistent one_text 1 false (refresh_tick ∷ exited 0 false ∷ refresh_tick ∷ []) small_world

abbrev idle_monitor : Monitor
idle_monitor = record {
  world = small_world;
  current_ids = [];
  connection = record { token_ids = []; token_to_condition = [] };
}

refreshed-follows_example :
    member "tok"
      (refreshed one_text idle_monitor
        (get_active_token_ids one_text small_world)).connection.token_ids
    ≡ any (λ x. lists one_text "tok" x.token_ids) (subscribed_markets small_db)
refreshed-follows_example = refreshed-follows one_text idle_monitor "tok" refl refl refl
