-- ===== src/Alert/Engine/Prices.antt =====
-- engine.rs: the previous price of every token, which crossing alerts compare with.
use poly_notifier.Common.{
  ◌==◌, string_eq, ◌≡◌, refl, ap, ◌∙◌, Bool, true, false, Option, none, some, List, [], ◌∷◌, all,
  if◌then◌else◌, Bool-cases, inl, inr,
}
use poly_notifier.Common.Dict.{Dict, get, insert, get-insert}
use poly_notifier.Common.{String, ℤ}
use poly_notifier.Store.World.{World, Exec, ◌>>=◌, now}
use poly_notifier.Store.Keeps.{Keeps, Keeps-pure, Keeps-bind, Keeps-attempt}
use poly_notifier.Store.Events.{PriceUpdate}
use poly_notifier.Interfaces.{Libraries}
use poly_notifier.Alert.Rules.{AlertRule, evaluate}
use poly_notifier.Alert.Dedup.{mark_fired}
use poly_notifier.Alert.Engine.{Engine, in_world}
use poly_notifier.Alert.Engine.Refresh.{
  install_rules, refresh_with, refresh_cache, refresh_condition_tokens, set_conditions,
}
use poly_notifier.Alert.Engine.Flush.{
  market_prices, write_prices, flush_entry, flush_entries, flush_prices_to_db,
}
use poly_notifier.Alert.Engine.Handle.{
  set_dedup, mark, fire, fire_if, may_fire, handle_rule, handle_rules, handle_watched,
  handle_price_update,
}
use poly_notifier.Alert.Engine.Run.{
  Event, cancelled, cache_tick, flush_tick, closed, lagged, price, handle_event, loop, run,
}

module _ (l : Libraries) where
  open l use {decimal}

  abbrev Prices : Type 0
  Prices = Dict String decimal.Decimal

  -- The prices that the engine holds.
  abbrev Holds : Prices → Engine l → Type 0
  Holds p s = s.prev_prices ≡ p

  module _ (p : Prices) where
    in_world-Holds {ℓ} : {A : Type ℓ} (m : Exec World A) → Keeps (Holds p) (in_world l m)
    in_world-Holds m = record { at = λ s h. h }

    mark-Holds : (id : ℤ) → Keeps (Holds p) (mark l id)
    unfolding mark mark_fired now ◌>>=◌ set_dedup
    mark-Holds id = record { at = λ s h. h }

    fire-Holds :
        (r : AlertRule decimal) (update : PriceUpdate decimal) → Keeps (Holds p) (fire l r update)
    unfolding fire
    fire-Holds r update = Keeps-bind (mark-Holds r.alert_id) λ _.
        Keeps-bind (Keeps-attempt (in_world-Holds _))
          λ _. Keeps-bind (Keeps-attempt (in_world-Holds _)) λ _. Keeps-pure tt

    fire_if-Holds :
        (free : Bool) (r : AlertRule decimal) (update : PriceUpdate decimal)
        → Keeps (Holds p) (fire_if l free r update)
    unfolding fire_if
    fire_if-Holds true r update = fire-Holds r update
    fire_if-Holds false r update = Keeps-pure tt

    may_fire-Holds : (r : AlertRule decimal) → Keeps (Holds p) (may_fire l r)
    unfolding may_fire
    may_fire-Holds r = record { at = λ s h. h }

    handle_rule-Holds :
        (update : PriceUpdate decimal) (previous : Option decimal.Decimal) (r : AlertRule decimal)
        → Keeps (Holds p) (handle_rule l update previous r)
    unfolding handle_rule
    handle_rule-Holds update previous r =
        elim (Bool-cases (evaluate decimal r update.price previous)) [
          | inl hit ↦ rw hit (Keeps-bind (may_fire-Holds r) λ free. fire_if-Holds free r update)
          | inr miss ↦ rw miss (Keeps-pure tt)
        ]

    handle_rules-Holds :
        (update : PriceUpdate decimal) (previous : Option decimal.Decimal)
        (rules : List (AlertRule decimal))
        → Keeps (Holds p) (handle_rules l update previous rules)
    unfolding handle_rules
    handle_rules-Holds update previous [] = Keeps-pure tt
    handle_rules-Holds update previous (r ∷ rules) =
        Keeps-bind (handle_rule-Holds update previous r)
          λ _. handle_rules-Holds update previous rules

    handle_watched-Holds :
        (update : PriceUpdate decimal) (previous : Option decimal.Decimal)
        (o : Option (List (AlertRule decimal)))
        → Keeps (Holds p) (handle_watched l update previous o)
    unfolding handle_watched
    handle_watched-Holds update previous none = Keeps-pure tt
    handle_watched-Holds update previous (some rules) = handle_rules-Holds update previous rules

    refresh_condition_tokens-Holds : Keeps (Holds p) (refresh_condition_tokens l)
    unfolding refresh_condition_tokens set_conditions
    refresh_condition_tokens-Holds = Keeps-bind (in_world-Holds _) λ rows. record { at = λ s h. h }

    refresh_cache-Holds : Keeps (Holds p) (refresh_cache l)
    unfolding refresh_cache refresh_with install_rules
    refresh_cache-Holds = Keeps-bind (in_world-Holds _) λ rows.
        Keeps-bind (record { at = λ s h. h })
          λ _. Keeps-bind (Keeps-attempt refresh_condition_tokens-Holds) λ _. Keeps-pure tt

    write_prices-Holds :
        (id : ℤ) (prices : List decimal.Decimal) → Keeps (Holds p) (write_prices l id prices)
    unfolding write_prices
    write_prices-Holds id prices = Keeps-bind (Keeps-attempt (in_world-Holds _)) λ _. Keeps-pure tt

    flush_entry-Holds : (entry : String × (ℤ × List String)) → Keeps (Holds p) (flush_entry l entry)
    unfolding flush_entry
    flush_entry-Holds (c, (id, ids)) = record {
      at = λ s h. elim (Bool-cases (all decimal.is_zero (market_prices l s ids))) [
        | inl zeros ↦ rw zeros h
        | inr real ↦ rw real ((write_prices-Holds id (market_prices l s ids)).at s h)
      ];
    }

    flush_entries-Holds :
        (entries : List (String × (ℤ × List String))) → Keeps (Holds p) (flush_entries l entries)
    unfolding flush_entries
    flush_entries-Holds [] = Keeps-pure tt
    flush_entries-Holds (e ∷ entries) =
        Keeps-bind (flush_entry-Holds e) λ _. flush_entries-Holds entries

  -- The last price of a token along what the loop receives until it is left.
  abbrev pub last_price : String → Option decimal.Decimal → List (Event l) → Option decimal.Decimal
  last_price token_id previous [] = previous
  last_price token_id previous (cancelled ∷ events) = previous
  last_price token_id previous (closed ∷ events) = previous
  last_price token_id previous (cache_tick ∷ events) = last_price token_id previous events
  last_price token_id previous (flush_tick ∷ events) = last_price token_id previous events
  last_price token_id previous (lagged skipped ∷ events) = last_price token_id previous events
  last_price token_id previous (price u ∷ events) =
      last_price token_id (if u.token_id == token_id then some u.price else previous) events

  handle_price_update-get :
      (u : PriceUpdate decimal) (s : Engine l) (token_id : String)
      → get token_id (handle_price_update l u s).1.prev_prices
        ≡ (if u.token_id == token_id then some u.price else get token_id s.prev_prices)
  unfolding handle_price_update
  handle_price_update-get u s token_id =
      ap (get token_id) (
        (handle_watched-Holds (insert u.token_id u.price s.prev_prices) u
            (get u.token_id s.prev_prices) (get u.token_id s.rule_cache)).at
          (record s { prev_prices = insert u.token_id u.price s.prev_prices }) refl)
      ∙ get-insert u.token_id token_id u.price s.prev_prices

  flush-get :
      (s : Engine l) (token_id : String)
      → get token_id (flush_prices_to_db l s).1.prev_prices ≡ get token_id s.prev_prices
  unfolding flush_prices_to_db
  flush-get s token_id =
      ap (get token_id) ((flush_entries-Holds s.prev_prices s.condition_tokens).at s refl)

  refresh-get :
      (s : Engine l) (token_id : String)
      → get token_id (refresh_cache l s).1.prev_prices ≡ get token_id s.prev_prices
  refresh-get s token_id = ap (get token_id) ((refresh_cache-Holds s.prev_prices).at s refl)

  loop-last_price :
      (events : List (Event l)) (s : Engine l) (token_id : String)
      → get token_id (loop l s events).prev_prices
        ≡ last_price token_id (get token_id s.prev_prices) events
  unfolding loop handle_event
  loop-last_price [] s token_id = refl
  loop-last_price (cancelled ∷ events) s token_id = flush-get s token_id
  loop-last_price (closed ∷ events) s token_id = refl
  loop-last_price (cache_tick ∷ events) s token_id =
      loop-last_price events (refresh_cache l s).1 token_id
      ∙ ap (λ o. last_price token_id o events) (refresh-get s token_id)
  loop-last_price (flush_tick ∷ events) s token_id =
      loop-last_price events (flush_prices_to_db l s).1 token_id
      ∙ ap (λ o. last_price token_id o events) (flush-get s token_id)
  loop-last_price (lagged skipped ∷ events) s token_id = loop-last_price events s token_id
  loop-last_price (price u ∷ events) s token_id =
      loop-last_price events (handle_price_update l u s).1 token_id
      ∙ ap (λ o. last_price token_id o events) (handle_price_update-get u s token_id)

  -- Whatever fails on the way, the engine holds after a run, for every token, the last price that it
  -- received for the token before it left the loop, or what it held at first where it received none.
  pub run-last_price :
      (events : List (Event l)) (s : Engine l) (token_id : String)
      → get token_id (run l s events).prev_prices
        ≡ last_price token_id (get token_id s.prev_prices) events
  unfolding run
  run-last_price events s token_id =
      loop-last_price events (refresh_cache l s).1 token_id
      ∙ ap (λ o. last_price token_id o events) (refresh-get s token_id)
