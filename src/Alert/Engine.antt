-- ===== src/Alert/Engine.antt =====
-- crates/pn-alert/src/engine.rs: the state of the alert engine.
pub mod Refresh
pub mod Flush
pub mod Handle
pub mod Run
pub mod Calls
pub mod Stamps
pub mod Cooldown
pub mod Reach
pub mod Firing
pub mod Cache
pub mod Prices
pub mod Rounds
pub mod Queueing
use poly_notifier.Common.{ℕ, ℤ, String, List, []}
use poly_notifier.Common.Dict.{Dict}
use poly_notifier.Store.World.{World, Exec}
use poly_notifier.Interfaces.{Libraries}
use poly_notifier.Alert.Rules.{AlertRule}
use poly_notifier.Alert.Dedup.{AlertDedup, new_dedup}

pub record EngineConfig : Type 0 where
  pub cache_refresh_interval_secs : ℕ
  pub default_cooldown_minutes : ℤ
  pub price_flush_interval_secs : ℕ

module _ (l : Libraries) where
  open l use {decimal}

  pub record Engine : Type 0 where
    pub world : World
    pub open world use *
    pub config : EngineConfig
    pub rule_cache : Dict String (List (AlertRule decimal))
    pub prev_prices : Dict String decimal.Decimal
    pub dedup : AlertDedup
    pub condition_tokens : Dict String (ℤ × List String)

  -- AlertEngine::with_config
  unfoldable with_config : World → EngineConfig → Engine
  with_config w c = record {
    world = w;
    config = c;
    rule_cache = [];
    prev_prices = [];
    dedup = new_dedup;
    condition_tokens = [];
  }

  -- An action on the database, the clock or a channel.
  abbrev pub in_world {ℓ} : {A : Type ℓ} → Exec World A → Exec Engine A
  in_world m s = let (r, w) = m s.world in (r, record s { world = w })
