-- ===== src/Polymarket/Ws/Parsing.antt =====
-- crates/pn-polymarket/src/ws.rs: the events of a text frame. The JSON of serde is a parameter.
use poly_notifier.Common.{
  String, ◌==◌, string_eq, Option, none, some, List, [], ◌∷◌, map, if◌then◌else◌,
}
use mathlib.Core.List.{filter_map}
use poly_notifier.Interfaces.{DecimalOps}
use poly_notifier.Polymarket.Types.{
  RawBookLevel, RawWsEvent, BookLevel, WsEvent, price_change, last_trade_price, book, unknown,
}
use poly_notifier.Polymarket.Gamma.{or_else, non_empty}

pub record WsOps : Type 1 where
  pub decimal : DecimalOps
  -- serde_json::Value, its parser, Display and as_array, and from_value to a RawWsEvent
  pub Value : Type 0
  pub parse_value : String → Option Value
  pub show : Value → String
  pub as_array : Value → Option (List Value)
  pub to_raw : Value → Option RawWsEvent
  -- json! on an object, a text and a list of texts
  pub object : List (String × Value) → Value
  pub string : String → Value
  pub strings : List String → Value

module _ (o : WsOps) where
  abbrev pub Event : Type 0
  Event = WsEvent o.decimal

  abbrev pub Decimal : Type 0
  Decimal = o.decimal.Decimal

  abbrev pub parsed_price : Option String → Option Decimal
  parsed_price none = none
  parsed_price (some price) = o.decimal.from_str price

  -- a.or(b)
  abbrev pub first_of : Option String → Option String → Option String
  first_of none b = b
  first_of (some a) b = some a

  unfoldable pub build_subscribe_message : List String → String
  build_subscribe_message token_ids =
      o.show (o.object (("type", o.string "market") ∷ ("assets_ids", o.strings token_ids) ∷ []))

  abbrev pub level_with : Option Decimal → Option Decimal → Option (BookLevel o.decimal)
  level_with (some price) (some size) = some (record { price = price; size = size })
  level_with _ _ = none

  unfoldable pub parse_book_levels : List RawBookLevel → List (BookLevel o.decimal)
  unfolding filter_map
  parse_book_levels raw =
      filter_map (λ r. level_with (o.decimal.from_str r.price) (o.decimal.from_str r.size)) raw

  -- An event with a price, or the text where none parses.
  abbrev pub priced : (Decimal → Event) → String → Option Decimal → Event
  priced event body none = unknown body
  priced event body (some price) = event price

  unfoldable pub event_of : RawWsEvent → String → String → Event
  unfolding parse_book_levels
  event_of raw body asset_id =
      let event_type = or_else "" raw.event_type in
      if event_type == "price_change"
      then priced (price_change asset_id) body (parsed_price raw.price)
      else if event_type == "last_trade_price"
      then priced (last_trade_price asset_id) body
          (parsed_price (first_of raw.last_trade_price raw.price))
      else if event_type == "book"
      then book asset_id (parse_book_levels (or_else [] raw.bids))
          (parse_book_levels (or_else [] raw.asks))
      else unknown body

  -- An asset id that is missing or empty makes the event unknown.
  abbrev pub with_asset : RawWsEvent → String → Option String → Event
  with_asset raw body none = unknown body
  with_asset raw body (some asset_id) = event_of raw body asset_id

  abbrev pub of_raw : String → Option RawWsEvent → Event
  of_raw body none = unknown body
  of_raw body (some raw) = with_asset raw body (non_empty raw.asset_id)

  unfoldable pub parse_single_event : o.Value → Event
  unfolding event_of
  parse_single_event value = of_raw (o.show value) (o.to_raw value)

  abbrev pub events_of : String → Option (List o.Value) → List Event
  events_of body none = unknown body ∷ []
  events_of body (some values) = map parse_single_event values

  unfoldable pub parse_ws_message : String → List Event
  unfolding parse_single_event
  parse_ws_message body = elim (o.parse_value body) [
    | none ↦ unknown body ∷ []
    | some value ↦ events_of body (o.as_array value)
  ]
