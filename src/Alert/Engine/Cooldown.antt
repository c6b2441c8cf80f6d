-- ===== src/Alert/Engine/Cooldown.antt =====
-- engine.rs and dedup.rs together: two firings of an alert are more than its cooldown apart.
use mathlib.Core.List.{filter_map}
use poly_notifier.Common.{
  ℕ, ℤ, String, ◌==◌, int_eq, string_eq, ◌≡◌, refl, Bool, true, false, Option, none, some, List, [],
  ◌∷◌, all, Bool-cases, Option-cases, inl, inr,
}
use poly_notifier.Common.Dict.{get}
use poly_notifier.Store.Rows.{ok}
use poly_notifier.Store.World.{Env, World, Db, Exec, ◌>>=◌, statement, now, tick}
use poly_notifier.Store.Keeps.{Keeps, Keeps-pure, Keeps-bind, Keeps-attempt}
use poly_notifier.Store.Events.{PriceUpdate}
use poly_notifier.Interfaces.{Libraries}
use poly_notifier.Alert.Rules.{AlertRule, evaluate}
use poly_notifier.Alert.Dedup.{AlertDedup, can_fire, can_fire_since, mark_fired}
use poly_notifier.Alert.Dedup.Laws.{stamp, stamp-mark_fired}
use poly_notifier.Alert.Engine.{Engine, in_world}
use poly_notifier.Store.Subscriptions.{subscribed_markets}
use poly_notifier.Alert.Engine.Refresh.{
  alert_rows, rule_of_row, install_rules, refresh_with, set_conditions, refresh_condition_tokens,
  refresh_cache,
}
use poly_notifier.Alert.Engine.Flush.{
  market_prices, write_prices, flush_entry, flush_entries, flush_prices_to_db,
}
use poly_notifier.Alert.Engine.Handle.{mark, fire, fire_if, may_fire, handle_rule}
use poly_notifier.Alert.Engine.Calls.{
  Since, Saved, Monotone, After, now-After, clock-After, tick-After, select-After, enqueue-After,
  persist-After, prices-After,
}
use poly_notifier.Alert.Engine.Stamps.{rules-Stamped, Since-load_from_alerts}

module _ (l : Libraries) (e : Env) (mono : Monotone e) (id : ℤ) (c : ℕ) (saved : Bool) where
  open l use {decimal}

  -- The dedup store knows of a firing of the alert at the clock reading of call `c`, or later.
  pub record Held (s : Engine l) : Type 0 where
    pub calls_after : After e mono id c saved s.world
    pub stamped : Since (e.clock c) (stamp id s.dedup)

  in_world-Held {ℓ} :
      {A : Type ℓ} {m : Exec World A}
      → Keeps (After e mono id c saved) m
      → Keeps Held (in_world l m)
  in_world-Held k = record {
    at = λ s h. record { calls_after = k.at s.world h.calls_after; stamped = h.stamped };
  }

  can_fire-After :
      (last : Option ℕ) (cooldown : ℤ)
      → Keeps (After e mono id c saved) (can_fire_since last cooldown)
  unfolding can_fire_since
  can_fire-After none cooldown = Keeps-pure true
  can_fire-After (some last) cooldown =
      Keeps-bind (now-After e mono id c saved) (λ at. Keeps-pure _)

  may_fire-Held : (rule : AlertRule decimal) → Keeps Held (may_fire l rule)
  unfolding may_fire can_fire
  may_fire-Held rule = record {
    at =
        λ s h. (in_world-Held (can_fire-After (get rule.alert_id s.dedup.last_triggered) _)).at s h;
  }

  -- Marking writes the present time, which is not before the first firing.
  Since-mark :
      (other : ℤ) (s : Engine l) (d : AlertDedup) (w : World)
      → Held s
      → mark_fired s.dedup other s.world ≡ (ok d, w)
      → Since (e.clock c) (stamp id d)
  Since-mark other s d w h marked =
      rw (stamp-mark_fired s.dedup d other id s.world w marked) (elim (Bool-cases (other == id)) [
        | inl same ↦ rw same (clock-After e mono id c saved h.calls_after)
        | inr differs ↦ rw differs h.stamped
      ])

  mark-Held : (other : ℤ) → Keeps Held (mark l other)
  unfolding mark mark_fired now ◌>>=◌
  mark-Held other = record {
    at = λ s h. record {
      calls_after = tick-After e mono id c saved h.calls_after;
      stamped = Since-mark other s _ _ h refl;
    };
  }

  fire-Held :
      (rule : AlertRule decimal) (update : PriceUpdate decimal) → Keeps Held (fire l rule update)
  unfolding fire
  fire-Held rule update = Keeps-bind (mark-Held rule.alert_id) λ _.
      Keeps-bind (Keeps-attempt (in_world-Held (enqueue-After e mono id c saved _))) λ _.
        Keeps-bind (Keeps-attempt (in_world-Held (persist-After e mono id c saved rule.alert_id)))
          λ _. Keeps-pure tt

  fire_if-Held :
      (free : Bool) (rule : AlertRule decimal) (update : PriceUpdate decimal)
      → Keeps Held (fire_if l free rule update)
  unfolding fire_if
  fire_if-Held true rule update = fire-Held rule update
  fire_if-Held false rule update = Keeps-pure tt

  pub handle_rule-Held :
      (update : PriceUpdate decimal) (previous : Option decimal.Decimal) (rule : AlertRule decimal)
      → Keeps Held (handle_rule l update previous rule)
  unfolding handle_rule
  handle_rule-Held update previous rule =
      elim (Bool-cases (evaluate decimal rule update.price previous)) [
        | inl passes ↦
            rw (passes, handle_rule)
              (Keeps-bind (may_fire-Held rule) (λ free. fire_if-Held free rule update))
        | inr fails ↦ rw (fails, handle_rule) (Keeps-pure tt)
      ]

  write-Held :
      (market_id : ℤ) (prices : List decimal.Decimal) → Keeps Held (write_prices l market_id prices)
  unfolding write_prices
  write-Held market_id prices =
      Keeps-bind (Keeps-attempt (in_world-Held (prices-After e mono id c saved market_id _)))
        λ _. Keeps-pure tt

  flush_entry-Held : (entry : String × (ℤ × List String)) → Keeps Held (flush_entry l entry)
  unfolding flush_entry
  flush_entry-Held (condition_id, (market_id, token_ids)) = record {
    at = λ s h. elim (Bool-cases (all decimal.is_zero (market_prices l s token_ids))) [
      | inl zero ↦ rw (zero, flush_entry) h
      | inr some_price ↦
          rw (some_price, flush_entry) ((write-Held market_id (market_prices l s token_ids)).at s h)
    ];
  }

  flush_entries-Held :
      (entries : List (String × (ℤ × List String))) → Keeps Held (flush_entries l entries)
  unfolding flush_entries
  flush_entries-Held [] = Keeps-pure tt
  flush_entries-Held (entry ∷ entries) =
      Keeps-bind (flush_entry-Held entry) (λ _. flush_entries-Held entries)

  pub flush-Held : Keeps Held (flush_prices_to_db l)
  unfolding flush_prices_to_db
  flush-Held = record { at = λ s h. (flush_entries-Held s.condition_tokens).at s h }

  set_conditions-Held : (m : _) → Keeps Held (set_conditions l m)
  unfolding set_conditions
  set_conditions-Held m = record {
    at = λ s h. record { calls_after = h.calls_after; stamped = h.stamped };
  }

  conditions-Held : Keeps Held (refresh_condition_tokens l)
  unfolding refresh_condition_tokens
  conditions-Held =
      Keeps-bind (in_world-Held (select-After e mono id c saved subscribed_markets))
        λ rows. set_conditions-Held _

  -- A refresh is harmless where the first firing was saved: the rows that it reads show it.
  install-Held :
      (s : Engine l) (d : Db)
      → Saved id (e.clock c) d.alerts
      → Held s
      → Held (install_rules l (filter_map (rule_of_row l) (alert_rows d)) s).1
  unfolding install_rules
  install-Held s d rows h = record {
    calls_after = h.calls_after;
    stamped =
        Since-load_from_alerts l id (e.clock c) s.dedup _ (rules-Stamped l id (e.clock c) d rows)
          h.stamped;
  }

  refresh_with-Held :
      (s : Engine l) (d : Db)
      → Saved id (e.clock c) d.alerts
      → Held s
      → Held (refresh_with l (alert_rows d) s).1
  unfolding refresh_with ◌>>=◌ install_rules refresh_condition_tokens
  refresh_with-Held s d rows h = conditions-Held.at _ (install-Held s d rows h)

  pub refresh-Held : saved ≡ true → Keeps Held (refresh_cache l)
  unfolding refresh_cache statement ◌>>=◌
  refresh-Held is_saved = record {
    at = λ s h.
        let ticked : Held (record s { world = tick s.world }) = record {
          calls_after = tick-After e mono id c saved h.calls_after;
          stamped = h.stamped;
        } in
        elim (Option-cases (s.db_fault s.calls)) [
          | inl sound ↦
              rw (sound, statement)
                (refresh_with-Held (record s { world = tick s.world }) s.db
                  (h.calls_after.rows is_saved) ticked)
          | inr (x, fault) ↦ rw (fault, statement) ticked
        ];
  }
