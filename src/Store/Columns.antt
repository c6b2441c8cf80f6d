-- ===== src/Store/Columns.antt =====
-- crates/pn-common/src/models.rs: the JSON columns of a market.
use poly_notifier.Common.{String, Option, some, none, List}
use poly_notifier.Store.Rows.{Market, Result, ok, err, serialization}
use poly_notifier.Interfaces.{JsonOps, DecimalOps}

-- map_err(Error::Serialization); the text of serde_json's error is a parameter.
abbrev parsed {ℓ} : {A : Type ℓ} → String → Option A → Result A
parsed text none = err (serialization text)
parsed text (some a) = ok a

module _ (json : JsonOps) (complaint : String → String) where
  unfoldable parse_outcomes : Market → Result (List String)
  parse_outcomes m = parsed (complaint m.outcomes) (json.parse_strings m.outcomes)

  unfoldable parse_token_ids : Market → Result (List String)
  parse_token_ids m = parsed (complaint m.token_ids) (json.parse_strings m.token_ids)

  -- serde_json::from_str to a list of Decimal is a parameter.
  unfoldable parse_last_prices :
      (n : DecimalOps) → (String → Option (List n.Decimal)) → Market → Result (List n.Decimal)
  parse_last_prices n from_json m = parsed (complaint m.last_prices) (from_json m.last_prices)
