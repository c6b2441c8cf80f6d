-- ===== src/Examples/Clients.antt =====
-- The theorems on the clients of Polymarket at concrete answers.
use poly_notifier.Common.{
  ℕ, String, ◌==◌, string_eq, nat_eq, ◌≡◌, refl, true, none, some, List, [], ◌∷◌, map, take,
  flat_map, ◌↔◌, if◌then◌else◌,
}
use poly_notifier.Common.Dict.{Dict, get}
use poly_notifier.Store.Rows.{ok}
use poly_notifier.Interfaces.{DecimalOps}
use poly_notifier.Polymarket.Types.{GammaMarket, GammaRawMarket, GammaEvent, RawWsEvent}
use poly_notifier.Polymarket.Http.{HttpOps, HttpResponse}
use poly_notifier.Polymarket.Gamma.{GammaClient, get_market_by_slug}
use poly_notifier.Polymarket.Gamma.Lists.{
  Answers, ids_of, id_of, unless_empty, get_market_by_slug-lists, slug_query, title_query,
}
use poly_notifier.Polymarket.Clob.{
  ClobClient, get_midpoints, get_prices, fetch_midpoint, fetch_price,
}
use poly_notifier.Polymarket.Clob.Prices.{answer_for, get_midpoints-isolates}
use poly_notifier.Polymarket.Ws.Parsing.{WsOps, parse_ws_message, parse_single_event}
use poly_notifier.Polymarket.Ws.{Input, incoming, cancelled, ping_tick, text, ping, run}
use poly_notifier.Polymarket.Ws.Forwards.{sent_by, texts_before_end, run-forwards}
use poly_notifier.Polymarket.Ws.Reports.{Reports, parse_single_event-ticks}
use poly_notifier.Monitor.Manager.{update_of, ws_event_to_price_update}
use poly_notifier.Examples.{cents, one_text, small_world}

-- The first call answers "empty", the second with an error, the others "full".
abbrev answer : ℕ → HttpResponse
answer call =
    if call == 0
    then record { status = 200; text = ok "empty" }
    else if call == 1
    then record { status = 200; text = ok "full" }
    else record { status = 404; text = ok "missing" }

abbrev http : HttpOps
http = record {
  base_url = "https://x";
  send = λ url query call. ok (answer call);
  show_status = λ status. "404";
}

abbrev raw_rain : GammaRawMarket
raw_rain = record {
  condition_id = some "c";
  question = some "Rain?";
  outcomes = some "Yes";
  clob_token_ids = some "t";
  active = some true;
  slug = none;
}

abbrev event_of_rain : GammaEvent
event_of_rain = record {
  title = none;
  slug = some "rain";
  markets = some (raw_rain ∷ record raw_rain { condition_id = some "" } ∷ []);
}

abbrev gamma : GammaClient
gamma = record {
  http = http;
  json = one_text;
  parse_events = λ body. some (if body == "full" then event_of_rain ∷ [] else []);
}

empty_answer : Answers gamma (slug_query gamma "rain") 0 []
empty_answer = record {
  response = answer 0;
  body = "empty";
  is_sent = refl;
  is_read = refl;
  is_good = refl;
  is_json = refl;
}

full_answer : Answers gamma (title_query gamma "rain") 1 (event_of_rain ∷ [])
full_answer = record {
  response = answer 1;
  body = "full";
  is_sent = refl;
  is_read = refl;
  is_good = refl;
  is_json = refl;
}

get_market_by_slug-lists_example :
    (ms : List GammaMarket) × ((get_market_by_slug gamma "rain" small_world).0 ≡ ok ms)
    × (map id_of ms ≡ unless_empty (ids_of []) (ids_of (event_of_rain ∷ [])))
get_market_by_slug-lists_example =
    get_market_by_slug-lists gamma "rain" [] (event_of_rain ∷ []) small_world empty_answer
      full_answer

-- Every price is 55.
abbrev fixed : DecimalOps
fixed = record cents { from_str = λ s. if s == "55" then some 55 else none }

abbrev clob : ClobClient
clob = record {
  http = http;
  decimal = fixed;
  parse_mid = λ body. if body == "full" then some "55" else none;
  parse_price = λ body. if body == "full" then some "55" else none;
}

get_midpoints-isolates_example :
    ((m : Dict String ℕ) × ((get_midpoints clob ("a" ∷ "b" ∷ "c" ∷ []) small_world).0 ≡ ok m)
      × (get "b" m ≡ answer_for clob (fetch_midpoint clob) "b" ("a" ∷ "b" ∷ "c" ∷ []) small_world))
    × ((m : Dict String ℕ) × ((get_prices clob ("a" ∷ "b" ∷ "c" ∷ []) small_world).0 ≡ ok m)
        × (get "b" m ≡ answer_for clob (fetch_price clob) "b" ("a" ∷ "b" ∷ "c" ∷ []) small_world))
get_midpoints-isolates_example =
    get_midpoints-isolates clob ("a" ∷ "b" ∷ "c" ∷ []) small_world "b"
      ((refl, (refl, tt)), ((refl, tt), (tt, tt)))

abbrev raw_change : RawWsEvent
raw_change = record {
  event_type = some "price_change";
  asset_id = some "t";
  price = some "55";
  last_trade_price = none;
  bids = none;
  asks = none;
}

-- A value is its text, and a frame but for "broken" is an array of itself.
abbrev socket : WsOps
socket = record {
  decimal = fixed;
  Value = String;
  parse_value = λ s. if s == "broken" then none else some s;
  show = λ v. v;
  as_array = λ v. some (v ∷ []);
  to_raw = λ v. if v == "change" then some raw_change else none;
  object = λ fields. "object";
  string = λ s. s;
  strings = λ ss. "strings";
}

abbrev inputs : List Input
inputs =
    incoming (text "change")
    ∷ ping_tick true
    ∷ incoming (ping "p")
    ∷ incoming (text "broken")
    ∷ incoming (text "change")
    ∷ cancelled
    ∷ incoming (text "change")
    ∷ []

run-forwards_example :
    sent_by socket (run socket 2 ("t" ∷ []) (ok tt) (ok tt) inputs)
    ≡ take 2 (flat_map (parse_ws_message socket) (texts_before_end inputs))
run-forwards_example = run-forwards socket 2 ("t" ∷ []) inputs

parse_single_event-ticks_example :
    (ws_event_to_price_update fixed (parse_single_event socket "change") (("t", "c") ∷ []) 7
      ≡ some (update_of fixed (("t", "c") ∷ []) "t" 55 7))
    ↔ Reports socket raw_change "t" 55
parse_single_event-ticks_example =
    parse_single_event-ticks socket "change" raw_change "t" 55 (("t", "c") ∷ []) 7 refl
