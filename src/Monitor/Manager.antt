-- ===== src/Monitor/Manager.antt =====
-- crates/pn-monitor/src/manager.rs: the connection that is opened again after every end.
pub mod Backoff
use poly_notifier.Common.{
  ℕ, zero, suc, ◌+◌, ◌-◌, ◌*◌, ◌^◌, String, string_eq, Bool, true, false, Option, none, some, List,
  [], ◌∷◌, ◌++◌, ltb, leb, if◌then◌else◌,
}
use mathlib.Core.Option
use poly_notifier.Common.Dict.{Dict, get}
use poly_notifier.Store.Events.{PriceUpdate}
use poly_notifier.Polymarket.Types.{WsEvent, price_change, last_trade_price, book, unknown}
use poly_notifier.Interfaces.{DecimalOps}

-- std::time::Duration, in nanoseconds: its seconds are a u64.
abbrev pub Duration : Type 0
Duration = ℕ

abbrev pub duration_end : ℕ
duration_end = 2 ^ 64 * 1_000_000_000

-- Duration * u32, which panics on overflow.
abbrev pub times : Duration → ℕ → Option Duration
times d k = if ltb (d * k) duration_end then some (d * k) else none

-- 2u32.saturating_pow(attempt)
abbrev pub power_of_two : ℕ → ℕ
power_of_two attempt = if ltb attempt 32 then 2 ^ attempt else 2 ^ 32 - 1

-- attempt.saturating_add(1)
abbrev pub next_attempt : ℕ → ℕ
next_attempt attempt = if ltb attempt (2 ^ 32 - 1) then attempt + 1 else attempt

-- Duration::min
abbrev pub shorter : Duration → Duration → Duration
shorter a b = if leb a b then a else b

pub record ConnectionManager : Type 0 where
  pub ws_ping_interval : Duration
  pub reconnect_base_delay : Duration
  pub reconnect_max_delay : Duration

-- None where the source panics.
unfoldable pub calculate_backoff : ConnectionManager → ℕ → Option Duration
calculate_backoff m attempt =
    Option.map (λ d. shorter d m.reconnect_max_delay)
      (times m.reconnect_base_delay (power_of_two attempt))

module _ (n : DecimalOps) where
  -- cloned().unwrap_or_default()
  abbrev pub or_empty : Option String → String
  or_empty none = ""
  or_empty (some text) = text

  abbrev pub update_of : Dict String String → String → n.Decimal → ℕ → PriceUpdate n
  update_of token_to_condition asset_id price at = record {
    token_id = asset_id;
    condition_id = or_empty (get asset_id token_to_condition);
    price = price;
    timestamp = at;
  }

  -- The clock's reading is an argument.
  unfoldable pub ws_event_to_price_update :
      WsEvent n → Dict String String → ℕ → Option (PriceUpdate n)
  unfolding get
  ws_event_to_price_update (price_change asset_id price) c at = some (update_of c asset_id price at)
  ws_event_to_price_update (last_trade_price asset_id price) c at =
      some (update_of c asset_id price at)
  ws_event_to_price_update (book asset_id bids asks) c at = none
  ws_event_to_price_update (unknown text) c at = none

  -- How a session ends: the token is cancelled while events are read, the task is aborted, or it
  -- is over (cleanly, with an error or by a panic), and then whether the token is cancelled before
  -- or during the pause.
  pub data End : Type 0 where
    cancelled_reading aborted cancelled_after cancelled_in_pause over : End

  -- A session is its events, each with the clock's reading, and its end.
  abbrev pub Session : Type 0
  Session = List (WsEvent n × ℕ) × End

  pub record Progress : Type 0 where
    pub attempt : ℕ
    pub published : List (PriceUpdate n)
    pub delays : List Duration

  pub data Outcome : Type 0 where
    reconnects stopped panicked : Progress → Outcome

  -- The updates of a session, in order.
  unfoldable pub updates_of : Dict String String → List (WsEvent n × ℕ) → List (PriceUpdate n)
  updates_of c [] = []
  updates_of c ((event, at) ∷ events) = elim (ws_event_to_price_update event c at) [
    | none ↦ updates_of c events
    | some update ↦ update ∷ updates_of c events
  ]

  -- received_any
  abbrev pub any_of {ℓ} : {A : Type ℓ} → List A → Bool
  any_of [] = false
  any_of (x ∷ xs) = true

  abbrev pub paused : Progress → Duration → Progress
  paused p delay = record p { attempt = next_attempt p.attempt; delays = p.delays ++ delay ∷ [] }

  -- The pause before the next session, and its end.
  unfoldable pub pause : ConnectionManager → End → Progress → Outcome
  unfolding calculate_backoff
  pause m cancelled_reading p = stopped p
  pause m aborted p = stopped p
  pause m cancelled_after p = stopped p
  pause m cancelled_in_pause p = elim (calculate_backoff m p.attempt) [
    | none ↦ panicked p
    | some delay ↦ stopped (paused p delay)
  ]
  pause m over p = elim (calculate_backoff m p.attempt) [
    | none ↦ panicked p
    | some delay ↦ reconnects (paused p delay)
  ]

  -- One pass of the outer loop; a session with an update resets the attempts.
  unfoldable pub session : ConnectionManager → Dict String String → Session → Progress → Outcome
  unfolding pause updates_of
  session m c (events, end) p =
      let updates = updates_of c events in
      pause m end (record p {
        attempt = if any_of updates then 0 else p.attempt;
        published = p.published ++ updates;
      })

  unfoldable pub run_sessions :
      ConnectionManager → Dict String String → List Session → Progress → Outcome
  unfolding session
  run_sessions m c [] p = reconnects p
  run_sessions m c (s ∷ sessions) p = elim (session m c s p) [
    | reconnects p' ↦ run_sessions m c sessions p'
    | stopped p' ↦ stopped p'
    | panicked p' ↦ panicked p'
  ]

  abbrev pub idle : Progress
  idle = record { attempt = 0; published = []; delays = [] }

  -- Without tokens nothing is opened until the token is cancelled.
  unfoldable pub run : ConnectionManager → List String → Dict String String → List Session → Outcome
  unfolding run_sessions
  run m [] c sessions = stopped idle
  run m (t ∷ token_ids) c sessions = run_sessions m c sessions idle
