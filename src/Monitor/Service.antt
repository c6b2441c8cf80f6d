-- ===== src/Monitor/Service.antt =====
-- crates/pn-monitor/src/service.rs: the connection follows the watched set.
pub mod Follows
use poly_notifier.Common.{
  ℕ, zero, suc, ◌||◌, String, string_eq, Bool, true, false, ◌&&◌, List, [], ◌∷◌, all, if◌then◌else◌,
}
use poly_notifier.Common.Dict.{Dict}
use poly_notifier.Store.Rows.{Result, ok, err}
use poly_notifier.Store.World.{World}
use poly_notifier.Interfaces.{JsonOps}
use poly_notifier.Monitor.Aggregator.{member, get_active_token_ids, get_token_to_condition}

-- The task of a ConnectionManager, by what it was started with.
pub record Connection : Type 0 where
  pub token_ids : List String
  pub token_to_condition : Dict String String

-- The state of the loop of `run`.
pub record Monitor : Type 0 where
  pub world : World
  pub open world use *
  pub current_ids : List String
  pub connection : Connection

-- new_ids == current_ids, on sets
abbrev pub same_set : List String → List String → Bool
same_set a b = all (λ t. member t b) a && all (λ t. member t a) b

module _ (json : JsonOps) where
  abbrev or_empty_map : Result (Dict String String) → Dict String String
  or_empty_map (ok mapping) = mapping
  or_empty_map (err e) = []

  -- Without a map of the conditions, the connection starts with an empty one.
  unfoldable pub spawn_connection : List String → World → Connection × World
  spawn_connection token_ids w =
      let (r, w') = get_token_to_condition json w in
      (record { token_ids = token_ids; token_to_condition = or_empty_map r }, w')

  -- The loop of `fetch_token_ids_with_retry`, by the number of pauses that pass before one is
  -- cancelled; with the set comes whether the cancellation ended it.
  unfoldable pub retry : ℕ → Result (List String) → World → (List String × Bool) × World
  retry patience (ok ids) w = ((ids, false), w)
  retry zero (err e) w = (([], true), w)
  retry (suc patience) (err e) w = let (r, w') = get_active_token_ids json w in retry patience r w'

  unfoldable pub fetch_token_ids_with_retry : ℕ → World → (List String × Bool) × World
  unfolding retry
  fetch_token_ids_with_retry patience w =
      let (r, w') = get_active_token_ids json w in retry patience r w'

  -- What `tokio::select!` hands to the loop. With the end of the connection task comes the patience
  -- of the fetch, and whether the token is cancelled by the time that the fetch is over.
  pub data Event : Type 0 where
    cancelled refresh_tick : Event
    exited : ℕ → Bool → Event

  pub data Status : Type 0 where
    running : Monitor → Status
    stopped : World → Status

  -- current_ids = new_ids, and a connection for it.
  unfoldable pub connect : List String → World → Monitor
  unfolding spawn_connection
  connect ids w =
      let (connection, w') = spawn_connection ids w in
      record { world = w'; current_ids = ids; connection = connection }

  -- The check of the token after a fetch.
  unfoldable pub connect_unless : Bool → (List String × Bool) × World → Status
  unfolding connect
  connect_unless is_cancelled ((ids, ended), w) =
      if ended || is_cancelled then stopped w else running (connect ids w)

  -- A failed query and an unchanged set keep the connection.
  unfoldable pub refreshed : Monitor → Result (List String) × World → Monitor
  unfolding connect
  refreshed m (err e, w) = record m { world = w }
  refreshed m (ok new_ids, w) =
      if same_set new_ids m.current_ids then record m { world = w } else connect new_ids w

  unfoldable pub handle_event : Event → Monitor → Status
  unfolding connect_unless fetch_token_ids_with_retry refreshed
  handle_event cancelled m = stopped m.world
  handle_event refresh_tick m = running (refreshed m (get_active_token_ids json m.world))
  handle_event (exited patience is_cancelled) m =
      connect_unless is_cancelled (fetch_token_ids_with_retry patience m.world)

  unfoldable pub loop : List Event → Status → Status
  unfolding handle_event
  loop events (stopped w) = stopped w
  loop [] (running m) = running m
  loop (event ∷ events) (running m) = loop events (handle_event event m)

  -- The first fetch and connection, then the loop.
  unfoldable pub run : ℕ → Bool → List Event → World → Status
  unfolding loop connect_unless fetch_token_ids_with_retry
  run patience is_cancelled events w =
      loop events (connect_unless is_cancelled (fetch_token_ids_with_retry patience w))
