-- ===== src/Alert/Engine/Firing.antt =====
-- engine.rs: the time that lies between two firings of an alert.
use mathlib.Core.Path.{subst}
use poly_notifier.Common.{
  ℕ, ◌+◌, ◌*◌, ◌≤◌, ◌<◌, ℤ, pos, ◌==◌, int_eq, string_eq, ◌≡◌, refl, Bool, true, false, Option,
  none, some, List, [], ◌∷◌, arith, beq_refl, Bool-cases, inl, inr, sym, change_where, ◌∙◌, ap, ◌≢◌,
  if◌then◌else◌,
}
use poly_notifier.Common.Dict.{get}
use poly_notifier.Store.Rows.{NotificationRequest, Alert, Result, ok, err}
use poly_notifier.Store.World.{
  Env, World, Exec, pure, continue, ◌>>=◌, statement, now, tick, enqueue,
}
use poly_notifier.Store.Alerts.{triggered}
use poly_notifier.Store.Events.{PriceUpdate}
use poly_notifier.Interfaces.{Libraries}
use poly_notifier.Alert.Rules.{AlertRule, evaluate}
use poly_notifier.Alert.Dedup.{mark_fired, can_fire, can_fire_since}
use poly_notifier.Alert.Dedup.Laws.{stamp, stamp-mark_fired_self, can_fire-stamp}
use poly_notifier.Alert.Engine.{Engine}
use poly_notifier.Alert.Engine.Handle.{
  cooldown_of, request, persist_triggered, mark, fire, may_fire, fire_if, handle_rule,
}
use poly_notifier.Alert.Engine.Calls.{Since, Saved, Monotone}
use poly_notifier.Alert.Engine.Cooldown.{Held, handle_rule-Held, flush-Held, refresh-Held}
use poly_notifier.Alert.Engine.Reach.{Step, refresh, flush, store, rule, Reach, here, next}

-- The rows of an alert after its trigger was saved.
Saved-triggered :
    (id : ℤ) (t at : ℕ) (rows : List Alert)
    → t ≤ at
    → Saved id t (change_where (λ a. a.id == id) (triggered at) rows)
Saved-triggered id t at [] h = tt
Saved-triggered id t at (a ∷ rows) h = elim (Bool-cases (a.id == id)) [
  | inl same ↦ rw same (λ _. h, Saved-triggered id t at rows h)
  | inr differs ↦ rw differs (
    λ e. cc (beq_refl id, subst (λ i. (i == id) ≡ false) e differs),
    Saved-triggered id t at rows h,
  )
]

enqueue_calls :
    (r : NotificationRequest) (w : World)
    → ((enqueue r w).1.env ≡ w.env) × ((enqueue r w).1.calls ≡ w.calls + 1)
unfolding enqueue
enqueue_calls r w = ground arith

persist_calls :
    (id : ℤ) (w : World)
    → ((persist_triggered id w).1.env ≡ w.env) × ((persist_triggered id w).1.calls ≡ w.calls + 2)
unfolding persist_triggered statement now ◌>>=◌
persist_calls id w = ground arith

persist_rows :
    (id : ℤ) (w : World)
    → w.db_fault (w.calls + 1) ≡ none
    → (persist_triggered id w).1.alerts
      ≡ change_where (λ a. a.id == id) (triggered (w.clock w.calls)) w.alerts
unfolding persist_triggered statement now ◌>>=◌
persist_rows id w sound = rw (sound, statement)

-- Where the update of the row succeeds, the rows of the alert show a firing of before.
persist_Saved :
    (e : Env) (mono : Monotone e) (id : ℤ) (n : ℕ) (w : World)
    → w.env ≡ e
    → w.calls ≡ n + 2
    → e.db_fault (n + 3) ≡ none
    → Saved id (e.clock n) (persist_triggered id w).1.alerts
persist_Saved e mono id n w same calls sound = rw (persist_rows id w written) (
    Saved-triggered id (e.clock n) (w.clock w.calls) w.alerts
      (subst (λ x. e.clock n ≤ x.clock w.calls) (sym same) (mono n w.calls (omega arith))))
  where
    written : w.db_fault (w.calls + 1) ≡ none
    written =
        ap (λ (x : Env). x.db_fault (w.calls + 1)) same
        ∙ ap (λ (k : ℕ). e.db_fault k) (omega (arith, calls))
        ∙ sound

module _ (l : Libraries) where
  open l use {decimal}

  -- A firing holds the alert from the clock reading with which it is marked.
  fire-Held :
      (s : Engine l) (mono : Monotone s.env) (saved : Bool) (r : AlertRule decimal)
      (update : PriceUpdate decimal)
      → (saved ≡ true → s.db_fault (s.calls + 3) ≡ none)
      → Held l s.env mono r.alert_id s.calls saved (fire l r update s).1
  unfolding fire mark mark_fired now ◌>>=◌
  fire-Held s mono saved r update persisted =
      let w = (enqueue (request l r update) (tick s.world)).1 in
      let enqueued = enqueue_calls (request l r update) (tick s.world) in
      let written = persist_calls r.alert_id w in
      record {
        calls_after = record {
          same_env = written.0 ∙ enqueued.0;
          later = omega (arith, written.1, enqueued.1);
          rows = λ is_saved.
              persist_Saved s.env mono r.alert_id s.calls w enqueued.0 (omega (arith, enqueued.1))
                (persisted is_saved);
        };
        stamped =
            rw (stamp-mark_fired_self s.dedup _ r.alert_id s.world (tick s.world) refl)
              (omega arith);
      }

  Step-Held :
      (e : Env) (mono : Monotone e) (id : ℤ) (c : ℕ) (saved : Bool) {s t : Engine l}
      → Step l saved s t
      → Held l e mono id c saved s
      → Held l e mono id c saved t
  Step-Held e mono id c saved {s} (refresh is_saved) h =
      (refresh-Held l e mono id c saved is_saved).at s h
  Step-Held e mono id c saved {s} flush h = (flush-Held l e mono id c saved).at s h
  Step-Held e mono id c saved (store update) h = record {
    calls_after = h.calls_after;
    stamped = h.stamped;
  }
  Step-Held e mono id c saved {s} (rule update previous r) h =
      (handle_rule-Held l e mono id c saved update previous r).at s h

  Reach-Held :
      (e : Env) (mono : Monotone e) (id : ℤ) (c : ℕ) (saved : Bool) {s t : Engine l}
      → Held l e mono id c saved s
      → Reach l saved s t
      → Held l e mono id c saved t
  Reach-Held e mono id c saved h here = h
  Reach-Held e mono id c saved h (next r step) =
      Step-Held e mono id c saved step (Reach-Held e mono id c saved h r)

  -- While the store holds the alert, it may fire only when more than the cooldown has passed.
  Held-may_fire :
      (e : Env) (mono : Monotone e) (c : ℕ) (saved : Bool) (s : Engine l) (r : AlertRule decimal)
      (minutes : ℕ)
      → Held l e mono r.alert_id c saved s
      → cooldown_of s.config r.cooldown_minutes ≡ pos minutes
      → (may_fire l r s).0 ≡ ok true
      → e.clock c + 60_000_000_000 * minutes < s.clock s.calls
  unfolding may_fire
  Held-may_fire e mono c saved s r minutes h cooldown fires =
      later (stamp r.alert_id s.dedup) refl h.stamped
    where
      later :
          (last : Option ℕ)
          → stamp r.alert_id s.dedup ≡ last
          → Since (e.clock c) last
          → e.clock c + 60_000_000_000 * minutes < s.clock s.calls
      later none held since = absurd since
      later (some t) held since = omega (
        arith,
        (can_fire-stamp s.dedup r.alert_id minutes t s.world held).0
            (subst (λ k. (can_fire s.dedup r.alert_id k s.world).0 ≡ ok true) cooldown fires),
      )

  -- The test of the cooldown leaves the environment and the channel.
  can_fire_kept :
      (last : Option ℕ) (cooldown : ℤ) (w : World)
      → (let out = can_fire_since last cooldown w in (out.1.env ≡ w.env) × (out.1.queue ≡ w.queue))
  unfolding can_fire_since now ◌>>=◌
  can_fire_kept none cooldown w = (refl, refl)
  can_fire_kept (some last) cooldown w = (refl, refl)

  may_fire_kept :
      (r : AlertRule decimal) (s : Engine l)
      → (let out = may_fire l r s in (out.1.env ≡ s.env) × (out.1.queue ≡ s.queue))
  unfolding may_fire can_fire
  may_fire_kept r s = can_fire_kept (get r.alert_id s.dedup.last_triggered) _ s.world

  -- What a round does with the answer of the cooldown test, where the channel changes.
  answered :
      (r : AlertRule decimal) (update : PriceUpdate decimal) (before : List NotificationRequest)
      (o : Result Bool) (s : Engine l)
      → s.queue ≡ before
      → (continue o (λ free. fire_if l free r update) s).1.queue ≢ before
      → (o ≡ ok true) × ((continue o (λ free. fire_if l free r update) s).1 ≡ (fire l r update s).1)
  unfolding fire_if ◌>>=◌
  answered r update before (ok true) s same changed = (refl, refl)
  answered r update before (ok false) s same changed = absurd (changed same)
  answered r update before (err x) s same changed = absurd (changed same)

  abbrev round : Bool → AlertRule decimal → PriceUpdate decimal → Exec (Engine l) (Unit {0})
  round passes r update =
      if passes then (do free ← may_fire l r; fire_if l free r update) else pure tt

  tested :
      (passes : Bool) (r : AlertRule decimal) (update : PriceUpdate decimal) (s : Engine l)
      → (round passes r update s).1.queue ≢ s.queue
      → ((may_fire l r s).0 ≡ ok true)
        × ((round passes r update s).1 ≡ (fire l r update (may_fire l r s).1).1)
  unfolding ◌>>=◌
  tested true r update s changed =
      answered r update s.queue (may_fire l r s).0 (may_fire l r s).1 (may_fire_kept r s).1 changed
  tested false r update s changed = absurd (changed refl)

  -- A round over a rule that changes the channel has asked for the cooldown, and fires.
  handle_rule-tested :
      (update : PriceUpdate decimal) (previous : Option decimal.Decimal) (r : AlertRule decimal)
      (s : Engine l)
      → (handle_rule l update previous r s).1.queue ≢ s.queue
      → ((may_fire l r s).0 ≡ ok true)
        × ((handle_rule l update previous r s).1 ≡ (fire l r update (may_fire l r s).1).1)
  unfolding handle_rule
  handle_rule-tested update previous r s changed =
      tested (evaluate decimal r update.price previous) r update s changed

  -- A firing under another name of the environment.
  fire_in-Held :
      (e : Env) (s : Engine l) (saved : Bool) (r : AlertRule decimal) (update : PriceUpdate decimal)
      → s.env ≡ e
      → (mono : Monotone e) → (saved ≡ true → e.db_fault (s.calls + 3) ≡ none)
      → Held l e mono r.alert_id s.calls saved (fire l r update s).1
  fire_in-Held e s saved r update same =
      subst
        (λ x.
          (mono : Monotone x)
          → (saved ≡ true → x.db_fault (s.calls + 3) ≡ none)
          → Held l x mono r.alert_id s.calls saved (fire l r update s).1)
        same (λ mono persisted. fire-Held s mono saved r update persisted)

  -- When a round over a rule has put a notification into the channel, a later round over a rule of the
  -- same alert puts one there only when more than the cooldown of the later rule has passed since the
  -- alert was marked in the first: in every state that the engine reaches in between by storing
  -- prices, by rounds over any rules and by flushes, whatever the database and the channel refuse. If
  -- the update of the alert's row succeeded in the first, refreshes of the cache may lie between too.
  -- The clock does not go back, and the cooldown is not negative.
  pub cooldown_respected :
      (s t : Engine l) (r r' : AlertRule decimal) (update update' : PriceUpdate decimal)
      (previous previous' : Option decimal.Decimal) (saved : Bool) (minutes : ℕ)
      → Monotone s.env
      → (handle_rule l update previous r s).1.queue ≢ s.queue
      → (saved ≡ true → s.db_fault ((may_fire l r s).1.calls + 3) ≡ none)
      → Reach l saved (handle_rule l update previous r s).1 t
      → r'.alert_id ≡ r.alert_id
      → (handle_rule l update' previous' r' t).1.queue ≢ t.queue
      → cooldown_of t.config r'.cooldown_minutes ≡ pos minutes
      → s.clock (may_fire l r s).1.calls + 60_000_000_000 * minutes < t.clock t.calls
  cooldown_respected s t r r' update update' previous previous' saved minutes mono first persisted
        reach same second cooldown =
      let s' = (may_fire l r s).1 in
      let fired = (handle_rule-tested update previous r s first).1 in
      let held = fire_in-Held s.env s' saved r update (may_fire_kept r s).0 mono persisted in
      Held-may_fire s.env mono s'.calls saved t r' minutes
        (subst (λ i. Held l s.env mono i s'.calls saved t) (sym same)
          (Reach-Held s.env mono r.alert_id s'.calls saved
            (subst (Held l s.env mono r.alert_id s'.calls saved) (sym fired) held) reach))
        cooldown (handle_rule-tested update' previous' r' t second).0
