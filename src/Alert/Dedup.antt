-- ===== src/Alert/Dedup.antt =====
-- crates/pn-alert/src/dedup.rs: the cooldown between two firings of an alert.
pub mod Laws
use poly_notifier.Common.{
  ℕ, ◌*◌, ℤ, Bool, true, Option, none, some, List, [], ◌∷◌, int_eq, ltb_ℤ, sub_ℕ, scale,
}
use poly_notifier.Common.Dict.{Dict, get, insert}
use poly_notifier.Store.World.{World, Exec, pure, ◌>>=◌, now}
use poly_notifier.Interfaces.{DecimalOps}
use poly_notifier.Alert.Rules.{AlertRule}

pub record AlertDedup : Type 0 where
  pub last_triggered : Dict ℤ ℕ

-- AlertDedup::new
abbrev pub new_dedup : AlertDedup
new_dedup = record { last_triggered = [] }

-- chrono::Duration::minutes, in nanoseconds
abbrev pub minutes : ℤ → ℤ
minutes = scale 60_000_000_000

-- The test of `can_fire` once both times are known.
abbrev pub cooled_down : ℕ → ℤ → ℕ → Bool
cooled_down last cooldown_minutes at = ltb_ℤ (minutes cooldown_minutes) (sub_ℕ at last)

-- The clock is read only where the alert has fired before.
unfoldable pub can_fire_since : Option ℕ → ℤ → Exec World Bool
can_fire_since (some last) cooldown_minutes = do
  at ← now
  pure (cooled_down last cooldown_minutes at)
can_fire_since none cooldown_minutes = pure true

unfoldable pub can_fire : AlertDedup → ℤ → ℤ → Exec World Bool
unfolding can_fire_since get
can_fire d alert_id cooldown_minutes =
    can_fire_since (get alert_id d.last_triggered) cooldown_minutes

-- The store is shared and mutated in the source; here the new store comes back.
unfoldable pub mark_fired : AlertDedup → ℤ → Exec World AlertDedup
mark_fired d alert_id = do
  at ← now
  pure (record { last_triggered = insert alert_id at d.last_triggered })

abbrev pub load_stamp : Option ℕ → ℤ → AlertDedup → AlertDedup
load_stamp (some last) alert_id d = record {
  last_triggered = insert alert_id last d.last_triggered;
}
load_stamp none alert_id d = d

module _ (n : DecimalOps) where
  unfoldable pub load_from_alerts : AlertDedup → List (AlertRule n) → AlertDedup
  load_from_alerts d [] = d
  load_from_alerts d (alert ∷ alerts) =
      load_from_alerts (load_stamp alert.last_triggered_at alert.alert_id d) alerts
