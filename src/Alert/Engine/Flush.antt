-- ===== src/Alert/Engine/Flush.antt =====
-- engine.rs, flush_prices_to_db: the last prices of every subscribed market go to `markets`.
use poly_notifier.Common.{
  ℤ, String, Option, none, some, List, [], ◌∷◌, map, string_eq, all, if◌then◌else◌,
}
use poly_notifier.Common.Dict.{get}
use poly_notifier.Store.Rows.{ok}
use poly_notifier.Store.World.{Exec, pure, attempt, ◌>>◌}
use poly_notifier.Store.Markets.{update_market_prices}
use poly_notifier.Interfaces.{Libraries}
use poly_notifier.Alert.Engine.{Engine, in_world}

module _ (l : Libraries) where
  open l use {decimal}

  abbrev pub or_zero : Option decimal.Decimal → decimal.Decimal
  or_zero none = decimal.zero_price
  or_zero (some p) = p

  -- One price for each token, in the order of the market's tokens.
  abbrev pub market_prices : Engine l → List String → List decimal.Decimal
  market_prices s = map (λ token_id. or_zero (get token_id s.prev_prices))

  abbrev pub json_or_empty : Option String → String
  json_or_empty none = "[]"
  json_or_empty (some text) = text

  -- A failure to write is logged only.
  unfoldable pub write_prices : ℤ → List decimal.Decimal → Exec (Engine l) (Unit {0})
  write_prices market_id prices = do
    attempt (in_world l (update_market_prices market_id (json_or_empty (decimal.to_json prices))))
    pure tt

  -- A market without a price other than zero is skipped.
  unfoldable pub flush_entry : String × (ℤ × List String) → Exec (Engine l) (Unit {0})
  unfolding write_prices
  flush_entry (condition_id, (market_id, token_ids)) s =
      let prices = market_prices s token_ids in
      if all decimal.is_zero prices then (ok tt, s) else write_prices market_id prices s

  unfoldable pub flush_entries : List (String × (ℤ × List String)) → Exec (Engine l) (Unit {0})
  unfolding flush_entry
  flush_entries [] = pure tt
  flush_entries (entry ∷ entries) = do flush_entry entry; flush_entries entries

  unfoldable pub flush_prices_to_db : Exec (Engine l) (Unit {0})
  unfolding flush_entries
  flush_prices_to_db s = flush_entries s.condition_tokens s
