-- ===== src/Polymarket/Gamma/Lists.antt =====
-- gamma.rs: which markets a look-up by slug and by condition id returns.
use poly_notifier.Common.{
  ℕ, ◌+◌, String, ◌<>◌, ◌==◌, string_eq, ◌≡◌, refl, ap, ◌∙◌, true, Option, none, some, List, [],
  ◌∷◌, ◌++◌, map, flat_map, if◌then◌else◌, Bool-cases, inl, inr,
}
use mathlib.Core.List.{filter_map, map-append}
use mathlib.Core.Option.{Option-elim}
use poly_notifier.Store.Rows.{ok}
use poly_notifier.Store.World.{World, tick, ask, ◌>>=◌}
use poly_notifier.Store.Steps.{bound}
use poly_notifier.Polymarket.Types.{GammaMarket, GammaRawMarket, GammaEvent}
use poly_notifier.Polymarket.Http.{HttpResponse, is_success, fetch}
use poly_notifier.Polymarket.Gamma.{
  GammaClient, market_with, or_else, non_empty, parse_raw_market, flatten_event, markets_for,
  refused, or_search, search_markets, get_market_by_slug,
}

-- The condition ids of the answer that are there and not empty, in order.
abbrev pub with_id : Option String → List String → List String
with_id none ids = ids
with_id (some id) ids = if id == "" then ids else id ∷ ids

abbrev pub ids_of_raws : Option (List GammaRawMarket) → List String
ids_of_raws none = []
ids_of_raws (some []) = []
ids_of_raws (some (raw ∷ raws)) = with_id raw.condition_id (ids_of_raws (some raws))

abbrev pub ids_of : List GammaEvent → List String
ids_of = flat_map (λ event. ids_of_raws event.markets)

-- The first list, or the second where it is empty.
abbrev pub unless_empty {ℓ} : {A : Type ℓ} → List A → List A → List A
unless_empty [] ys = ys
unless_empty (x ∷ xs) ys = x ∷ xs

abbrev pub id_of : GammaMarket → String
id_of m = m.condition_id

module _ (g : GammaClient) where
  -- The service answers a query at a call with a body that reads as these events.
  pub record Answers (query : List (String × String)) (call : ℕ) (events : List GammaEvent)
      : Type 0 where
    pub response : HttpResponse
    pub body : String
    pub is_sent : g.http.send (g.http.base_url <> "/events") query call ≡ ok response
    pub is_read : response.text ≡ ok body
    pub is_good : is_success response.status ≡ true
    pub is_json : g.parse_events body ≡ some events

  with_id-lists :
      (id : Option String) (f : String → GammaMarket) (rest : List GammaMarket)
      → ((i : String) → id_of (f i) ≡ i)
      → (let m : Option GammaMarket = elim (non_empty id) [ none ↦ none | some i ↦ some (f i) ] in
          map id_of (Option-elim m rest (λ m. m ∷ rest)))
        ≡ with_id id (map id_of rest)
  unfolding Option-elim
  with_id-lists none f rest h = refl
  with_id-lists (some id) f rest h = elim (Bool-cases (id == "")) [
    | inl blank ↦ rw blank refl
    | inr good ↦ rw good (ap (λ i. i ∷ map id_of rest) (h id))
  ]

  ids-parse_raw_market :
      (slug : String) (raws : List GammaRawMarket)
      → map id_of (filter_map (parse_raw_market g slug) raws) ≡ ids_of_raws (some raws)
  unfolding filter_map parse_raw_market
  ids-parse_raw_market slug [] = refl
  ids-parse_raw_market slug (raw ∷ raws) =
      with_id-lists raw.condition_id (market_with g raw slug)
        (filter_map (parse_raw_market g slug) raws) (λ i. refl)
      ∙ ap (with_id raw.condition_id) (ids-parse_raw_market slug raws)

  ids-markets :
      (slug : String) (markets : Option (List GammaRawMarket))
      → map id_of (filter_map (parse_raw_market g slug) (or_else [] markets)) ≡ ids_of_raws markets
  unfolding filter_map
  ids-markets slug none = refl
  ids-markets slug (some raws) = ids-parse_raw_market slug raws

  ids-flat_map :
      (events : List GammaEvent) → map id_of (flat_map (flatten_event g) events) ≡ ids_of events
  unfolding flatten_event
  ids-flat_map [] = refl
  ids-flat_map (event ∷ events) =
      map-append _ (flatten_event g event) (flat_map (flatten_event g) events)
      ∙ ap (λ ids. ids ++ map id_of (flat_map (flatten_event g) events))
          (ids-markets (or_else "" event.slug) event.markets)
      ∙ ap (λ ids. ids_of_raws event.markets ++ ids) (ids-flat_map events)

  markets_for-answered :
      (query : List (String × String)) (reading : String) (refusal : String → String → String)
      (events : List GammaEvent) (w : World)
      → Answers query w.calls events
      → markets_for g query reading refusal w ≡ (ok (flat_map (flatten_event g) events), tick w)
  unfolding markets_for fetch ask ◌>>=◌
  markets_for-answered query reading refusal events w a =
      rw (a.is_sent, a.is_read, a.is_good, a.is_json) refl

  abbrev pub slug_query : String → List (String × String)
  slug_query slug = ("slug", slug) ∷ []

  abbrev pub title_query : String → List (String × String)
  title_query title = ("closed", "false") ∷ ("limit", "10") ∷ ("title", title) ∷ []

  searched :
      (slug : String) (ms : List GammaMarket) (found : List GammaEvent) (w : World)
      → Answers (title_query slug) w.calls found
      → (rs : List GammaMarket) × ((or_search g slug ms w).0 ≡ ok rs)
        × (map id_of rs ≡ unless_empty (map id_of ms) (ids_of found))
  unfolding search_markets ◌>>=◌
  searched slug [] found w a = (
    flat_map (flatten_event g) found,
    ap (λ o. o.0)
        (markets_for-answered (title_query slug) "reading Gamma search response body"
          (refused g "search query" slug) found w a),
    ids-flat_map found,
  )
  searched slug (m ∷ ms) found w a = (m ∷ ms, refl, refl)

  -- Where the service answers a look-up by slug with events, and a search for the slug as a title at
  -- the next call too, get_market_by_slug returns one market for every market of the first answer that
  -- has a condition id which is not empty, with that id and in their order. Where the first answer has
  -- none, it returns those of the second in the same way.
  pub get_market_by_slug-lists :
      (slug : String) (events found : List GammaEvent) (w : World)
      → Answers (slug_query slug) w.calls events
      → Answers (title_query slug) (w.calls + 1) found
      → (ms : List GammaMarket) × ((get_market_by_slug g slug w).0 ≡ ok ms)
        × (map id_of ms ≡ unless_empty (ids_of events) (ids_of found))
  unfolding get_market_by_slug
  get_market_by_slug-lists slug events found w first second =
      let ms = flat_map (flatten_event g) events in
      let (rs, e, ids) = searched slug ms found (tick w) second in
      (
        rs,
        ap (λ o. o.0)
              (bound
                (markets_for g (slug_query slug) "reading Gamma slug response body"
                  (refused g "slug" slug))
                (or_search g slug) w (tick w) ms
                (markets_for-answered (slug_query slug) "reading Gamma slug response body"
                  (refused g "slug" slug) events w first))
            ∙ e,
        ids ∙ ap (λ is. unless_empty is (ids_of found)) (ids-flat_map events),
      )
