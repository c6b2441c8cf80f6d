-- ===== src/Polymarket/Clob.antt =====
-- crates/pn-polymarket/src/clob.rs: the prices of the tokens, one request for each. `join_all` starts
-- the requests together; they are answered by their numbers here, in the order of the tokens.
pub mod Prices
use poly_notifier.Common.{String, ◌<>◌, string_eq, Option, List, [], ◌∷◌}
use poly_notifier.Common.Dict.{Dict, insert}
use poly_notifier.Store.Rows.{Result, ok, err}
use poly_notifier.Store.World.{World, Exec, pure, attempt, ◌>>=◌}
use poly_notifier.Interfaces.{DecimalOps}
use poly_notifier.Polymarket.Http.{HttpOps, required, lift, fetch}

pub record ClobClient : Type 1 where
  pub http : HttpOps
  pub decimal : DecimalOps
  -- serde_json::from_str to the field of a MidpointResponse and of a PriceResponse
  pub parse_mid : String → Option String
  pub parse_price : String → Option String

module _ (c : ClobClient) where
  abbrev pub Decimal : Type 0
  Decimal = c.decimal.Decimal

  -- The text of the price in a body, as a Decimal.
  abbrev pub decimal_of : String → (String → Option String) → String → String → Exec World Decimal
  decimal_of what field parsing body = do
    text ← lift (required parsing (field body))
    lift (
        required ("parsing " <> (what <> (" value '" <> (text <> "' as Decimal"))))
          (c.decimal.from_str text))

  -- The message of a refused request.
  abbrev pub refused : String → String → String → String → String
  refused what token_id status body =
      "CLOB /" <> (what <> (" returned " <> (status <> (" for " <> (token_id <> (": " <> body))))))

  unfoldable pub fetch_midpoint : String → Exec World Decimal
  unfolding fetch
  fetch_midpoint token_id = do
    body ←
        fetch c.http (c.http.base_url <> "/midpoint") (("token_id", token_id) ∷ [])
          ("GET " <> (c.http.base_url <> ("/midpoint?token_id=" <> (token_id <> " failed"))))
          "reading midpoint response body" (refused "midpoint" token_id)
    decimal_of "midpoint" c.parse_mid "parsing midpoint response" body

  unfoldable pub fetch_price : String → Exec World Decimal
  unfolding fetch
  fetch_price token_id = do
    body ←
        fetch c.http (c.http.base_url <> "/price") (("token_id", token_id) ∷ ("side", "buy") ∷ [])
          ("GET " <> (c.http.base_url <> ("/price?token_id=" <> (token_id <> "&side=buy failed"))))
          "reading price response body" (refused "price" token_id)
    decimal_of "price" c.parse_price "parsing price response" body

  -- join_all(futures).await
  unfoldable pub fetch_all :
      (String → Exec World Decimal) → List String → Exec World (List (Result Decimal))
  fetch_all f [] = pure []
  fetch_all f (token_id ∷ token_ids) = do
    r ← attempt (f token_id)
    results ← fetch_all f token_ids
    pure (r ∷ results)

  -- An entry for a result that is a price.
  abbrev pub put_price : String → Result Decimal → Dict String Decimal → Dict String Decimal
  put_price token_id (ok price) m = insert token_id price m
  put_price token_id (err e) m = m

  -- The loop over token_ids.zip(results).
  unfoldable pub collect :
      List String → List (Result Decimal) → Dict String Decimal → Dict String Decimal
  unfolding insert
  collect [] results m = m
  collect (token_id ∷ token_ids) [] m = m
  collect (token_id ∷ token_ids) (r ∷ results) m =
      collect token_ids results (put_price token_id r m)

  unfoldable pub get_midpoints : List String → Exec World (Dict String Decimal)
  unfolding fetch_all fetch_midpoint collect
  get_midpoints token_ids = do
    results ← fetch_all fetch_midpoint token_ids
    pure (collect token_ids results [])

  unfoldable pub get_prices : List String → Exec World (Dict String Decimal)
  unfolding fetch_all fetch_price collect
  get_prices token_ids = do
    results ← fetch_all fetch_price token_ids
    pure (collect token_ids results [])
