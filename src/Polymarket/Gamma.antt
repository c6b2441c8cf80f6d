-- ===== src/Polymarket/Gamma.antt =====
-- crates/pn-polymarket/src/gamma.rs: the search for markets. The JSON that serde derives is a
-- parameter.
pub mod Lists
use poly_notifier.Common.{
  String, ◌<>◌, ◌==◌, string_eq, Bool, true, false, not, Option, none, some, List, [], ◌∷◌, find,
  flat_map, if◌then◌else◌,
}
use mathlib.Core.List.{filter_map}
use poly_notifier.Store.Rows.{Result}
use poly_notifier.Store.World.{World, Exec, pure, ◌>>=◌}
use poly_notifier.Interfaces.{JsonOps}
use poly_notifier.Polymarket.Types.{GammaToken, GammaMarket, GammaRawMarket, GammaEvent}
use poly_notifier.Polymarket.Http.{HttpOps, required, lift, fetch}

pub record GammaClient : Type 0 where
  pub http : HttpOps
  pub json : JsonOps
  -- serde_json::from_str to the events
  pub parse_events : String → Option (List GammaEvent)

-- unwrap_or
abbrev pub or_else {ℓ} : {A : Type ℓ} → A → Option A → A
or_else a none = a
or_else a (some b) = b

-- Some(id) if !id.is_empty()
abbrev pub non_empty : Option String → Option String
non_empty none = none
non_empty (some text) = if text == "" then none else some text

-- outcome_labels.zip(token_ids), as tokens
unfoldable pub zip_tokens : List String → List String → List GammaToken
zip_tokens [] token_ids = []
zip_tokens (outcome ∷ labels) [] = []
zip_tokens (outcome ∷ labels) (token_id ∷ token_ids) =
    record { token_id = token_id; outcome = outcome } ∷ zip_tokens labels token_ids

module _ (g : GammaClient) where
  -- A column that does not parse counts as empty.
  abbrev pub strings_of : String → List String
  strings_of text = or_else [] (g.json.parse_strings text)

  abbrev pub market_with : GammaRawMarket → String → String → GammaMarket
  market_with raw event_slug condition_id =
      let outcomes_str = or_else "[]" raw.outcomes in
      record {
        condition_id = condition_id;
        question = or_else "" raw.question;
        slug = or_else event_slug raw.slug;
        outcomes = outcomes_str;
        tokens =
            zip_tokens (strings_of outcomes_str) (strings_of (or_else "[]" raw.clob_token_ids));
        active = or_else false raw.active;
      }

  unfoldable pub parse_raw_market : String → GammaRawMarket → Option GammaMarket
  unfolding zip_tokens
  parse_raw_market event_slug raw = elim (non_empty raw.condition_id) [
    | none ↦ none
    | some condition_id ↦ some (market_with raw event_slug condition_id)
  ]

  unfoldable pub flatten_event : GammaEvent → List GammaMarket
  unfolding parse_raw_market filter_map
  flatten_event event =
      filter_map (parse_raw_market (or_else "" event.slug)) (or_else [] event.markets)

  -- The markets of the events that a query answers with.
  unfoldable pub markets_for :
      List (String × String) → String → (String → String → String) → Exec World (List GammaMarket)
  unfolding fetch flatten_event
  markets_for query reading refusal = do
    body ←
        fetch g.http (g.http.base_url <> "/events") query
          ("GET " <> (g.http.base_url <> "/events failed")) reading refusal
    events ← lift (required "parsing Gamma events JSON" (g.parse_events body))
    pure (flat_map flatten_event events)

  -- The message of a refused request.
  abbrev pub refused : String → String → String → String → String
  refused what name status body =
      "Gamma API returned "
      <> (status <> (" for " <> (what <> (" '" <> (name <> ("': " <> body))))))

  unfoldable pub search_markets : String → Exec World (List GammaMarket)
  unfolding markets_for
  search_markets query =
      markets_for (("closed", "false") ∷ ("limit", "10") ∷ ("title", query) ∷ [])
        "reading Gamma search response body" (refused "search query" query)

  -- An event slug without markets is searched as a title.
  abbrev pub or_search : String → List GammaMarket → Exec World (List GammaMarket)
  or_search slug [] = search_markets slug
  or_search slug (m ∷ markets) = pure (m ∷ markets)

  unfoldable pub get_market_by_slug : String → Exec World (List GammaMarket)
  unfolding markets_for search_markets
  get_market_by_slug slug = do
    markets ←
        markets_for (("slug", slug) ∷ []) "reading Gamma slug response body" (refused "slug" slug)
    or_search slug markets

  unfoldable pub get_market : String → Exec World (Option GammaMarket)
  unfolding markets_for
  get_market condition_id = do
    markets ←
        markets_for (("condition_id", condition_id) ∷ []) "reading Gamma get_market response body"
          (refused "condition_id" condition_id)
    pure (find (λ m. m.condition_id == condition_id) markets)
