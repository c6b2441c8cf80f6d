-- ===== src/Alert/Dedup/Laws.antt =====
-- dedup.rs: when an alert may fire again.
use poly_notifier.Common.{
  ℕ, ◌+◌, ◌*◌, ◌≤◌, ◌<◌, ℤ, pos, ◌≡◌, refl, ◌↔◌, true, false, Option, none, some, List, [], ◌∷◌,
  arith, int_eq, if◌then◌else◌, ◌==◌, All, ◌++◌, ap, ◌∙◌, beq_refl,
}
use poly_notifier.Common.Dict.{get, get-insert}
use poly_notifier.Store.Rows.{ok}
use poly_notifier.Store.World.{World, now, ◌>>=◌}
use poly_notifier.Interfaces.{DecimalOps}
use poly_notifier.Alert.Rules.{AlertRule}
use poly_notifier.Alert.Dedup.{
  AlertDedup, can_fire, can_fire_since, mark_fired, load_from_alerts, load_stamp,
}

abbrev pub stamp : ℤ → AlertDedup → Option ℕ
stamp alert_id d = get alert_id d.last_triggered

pub stamp-mark_fired :
    (d d' : AlertDedup) (alert_id other : ℤ) (w w' : World)
    → mark_fired d alert_id w ≡ (ok d', w')
    → stamp other d' ≡ (if alert_id == other then some (w.clock w.calls) else stamp other d)
unfolding mark_fired now ◌>>=◌
stamp-mark_fired d d' alert_id other w w' h =
    ground (arith, get-insert alert_id other (w.clock w.calls) d.last_triggered)

pub stamp-mark_fired_self :
    (d d' : AlertDedup) (alert_id : ℤ) (w w' : World)
    → mark_fired d alert_id w ≡ (ok d', w')
    → stamp alert_id d' ≡ some (w.clock w.calls)
stamp-mark_fired_self d d' alert_id w w' h =
    rw (stamp-mark_fired d d' alert_id alert_id w w' h) (rw (beq_refl alert_id))

-- With a stamp, `can_fire` compares the time since it with the cooldown, and without one it is true.
pub can_fire-stamp :
    (d : AlertDedup) (alert_id : ℤ) (cooldown last : ℕ) (w : World)
    → stamp alert_id d ≡ some last
    → ((can_fire d alert_id (pos cooldown) w).0 ≡ ok true)
      ↔ (last + 60_000_000_000 * cooldown < w.clock w.calls)
unfolding can_fire now ◌>>=◌
can_fire-stamp d alert_id cooldown last w h = rw (h, can_fire_since) (ground arith)

-- After `mark_fired`, the alert may fire exactly when more than the cooldown has passed since the
-- marking, and every other alert may fire as before.
pub can_fire-mark_fired :
    (d d' : AlertDedup) (alert_id other : ℤ) (cooldown : ℕ) (w w' v : World)
    → mark_fired d alert_id w ≡ (ok d', w')
    → (alert_id == other) ≡ false
    → (((can_fire d' alert_id (pos cooldown) v).0 ≡ ok true)
        ↔ (w.clock w.calls + 60_000_000_000 * cooldown < v.clock v.calls))
      × (can_fire d' other (pos cooldown) v ≡ can_fire d other (pos cooldown) v)
unfolding can_fire
can_fire-mark_fired d d' alert_id other cooldown w w' v h distinct = (
  can_fire-stamp d' alert_id cooldown (w.clock w.calls) v
      (stamp-mark_fired_self d d' alert_id w w' h),
  ap (λ (s : Option ℕ). can_fire_since s (pos cooldown) v)
      (stamp-mark_fired d d' alert_id other w w' h ∙ rw distinct refl),
)

pub stamp-load_stamp :
    (last : ℕ) (alert_id other : ℤ) (d : AlertDedup)
    → stamp other (load_stamp (some last) alert_id d)
      ≡ (if alert_id == other then some last else stamp other d)
stamp-load_stamp last alert_id other d = get-insert alert_id other last d.last_triggered

stamp-load_stamp_ne :
    (last : Option ℕ) (alert_id other : ℤ) (d : AlertDedup)
    → (alert_id == other) ≡ false
    → stamp other (load_stamp last alert_id d) ≡ stamp other d
stamp-load_stamp_ne none alert_id other d h = refl
stamp-load_stamp_ne (some last) alert_id other d h =
    stamp-load_stamp last alert_id other d ∙ rw h refl

stamp-load_stamp_self :
    (last : ℕ) (alert_id : ℤ) (d : AlertDedup)
    → stamp alert_id (load_stamp (some last) alert_id d) ≡ some last
stamp-load_stamp_self last alert_id d =
    stamp-load_stamp last alert_id alert_id d ∙ rw (beq_refl alert_id) refl

module _ (n : DecimalOps) where
  -- No row of the list is about the alert.
  abbrev pub Absent : ℤ → List (AlertRule n) → Type 0
  Absent alert_id = All (λ r. (r.alert_id == alert_id) ≡ false)

  stamp-load-Absent :
      (alert_id : ℤ) (d : AlertDedup) (rows : List (AlertRule n))
      → Absent alert_id rows
      → stamp alert_id (load_from_alerts n d rows) ≡ stamp alert_id d
  unfolding load_from_alerts
  stamp-load-Absent alert_id d [] absent = refl
  stamp-load-Absent alert_id d (r ∷ rows) absent =
      stamp-load-Absent alert_id (load_stamp r.last_triggered_at r.alert_id d) rows absent.1
      ∙ stamp-load_stamp_ne r.last_triggered_at r.alert_id alert_id d absent.0

  -- The row of an alert that stands last in the list settles its stamp, whatever the store held.
  stamp-load_from_alerts :
      (d : AlertDedup) (before after : List (AlertRule n)) (r : AlertRule n) (last : ℕ)
      → r.last_triggered_at ≡ some last
      → Absent r.alert_id after
      → stamp r.alert_id (load_from_alerts n d (before ++ r ∷ after)) ≡ some last
  unfolding load_from_alerts
  stamp-load_from_alerts d [] after r last h absent =
      stamp-load-Absent r.alert_id (load_stamp r.last_triggered_at r.alert_id d) after absent
      ∙ rw h (stamp-load_stamp_self last r.alert_id d)
  stamp-load_from_alerts d (b ∷ before) after r last h absent =
      stamp-load_from_alerts (load_stamp b.last_triggered_at b.alert_id d) before after r last h
        absent

  -- The rows overwrite what the store holds: an alert that is in its cooldown by the store may fire
  -- again after a load in which the last of its rows has a stamp whose cooldown has passed.
  pub load_from_alerts_reopens :
      (d : AlertDedup) (before after : List (AlertRule n)) (r : AlertRule n)
      (cooldown last recent : ℕ) (w : World)
      → stamp r.alert_id d ≡ some recent
      → w.clock w.calls ≤ recent + 60_000_000_000 * cooldown
      → r.last_triggered_at ≡ some last
      → last + 60_000_000_000 * cooldown < w.clock w.calls
      → Absent r.alert_id after
      → ¬ ((can_fire d r.alert_id (pos cooldown) w).0 ≡ ok true)
        × ((can_fire (load_from_alerts n d (before ++ r ∷ after)) r.alert_id (pos cooldown) w).0
            ≡ ok true)
  load_from_alerts_reopens d before after r cooldown last recent w held cooling row cooled absent =
      (
        λ fires.
            absurd (omega (arith, (can_fire-stamp d r.alert_id cooldown recent w held).0 fires)),
        (can_fire-stamp _ r.alert_id cooldown last w
              (stamp-load_from_alerts d before after r last row absent)).1
            cooled,
      )
