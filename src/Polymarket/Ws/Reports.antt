-- ===== src/Polymarket/Ws/Reports.antt =====
-- ws.rs and pn-monitor/src/manager.rs together: which elements of a frame become a price tick.
use poly_notifier.Common.{
  ℕ, String, ◌==◌, string_eq, ◌≡◌, refl, sym, ap, ◌∙◌, Bool, true, false, Option, none, some, List,
  arith, if◌then◌else◌, Bool-cases, inl, inr, ◌↔◌, nothing, some_inj,
}
use mathlib.Core.Path.{subst}
use poly_notifier.Common.Dict.{Dict}
use poly_notifier.Store.Events.{PriceUpdate}
use poly_notifier.Polymarket.Types.{
  RawWsEvent, BookLevel, price_change, last_trade_price, book, unknown,
}
use poly_notifier.Polymarket.Gamma.{or_else, non_empty}
use poly_notifier.Polymarket.Ws.Parsing.{
  WsOps, Decimal, Event, parsed_price, first_of, priced, event_of, with_asset, of_raw,
  parse_single_event,
}
use poly_notifier.Monitor.Manager.{update_of, ws_event_to_price_update}

-- The text of the price that an element carries, by its type.
pub data Carries (raw : RawWsEvent) (price : String) : Type 0 where
  changed : raw.event_type ≡ some "price_change" → raw.price ≡ some price → Carries raw price
  traded :
      raw.event_type ≡ some "last_trade_price"
      → raw.last_trade_price ≡ some price
      → Carries raw price
  traded_at :
      raw.event_type ≡ some "last_trade_price"
      → raw.last_trade_price ≡ none
      → raw.price ≡ some price
      → Carries raw price

module _ (o : WsOps) where
  -- An element reports a price of a token.
  pub record Reports (raw : RawWsEvent) (token : String) (price : Decimal o) : Type 0 where
    pub named : raw.asset_id ≡ some token
    pub not_blank : (token == "") ≡ false
    pub text : String
    pub carried : Carries raw text
    pub is_number : o.decimal.from_str text ≡ some price

  abbrev tick_of : Event o → Dict String String → ℕ → Option (PriceUpdate o.decimal)
  tick_of = ws_event_to_price_update o.decimal

  type_is :
      (t : Option String) (name : String)
      → (name == "") ≡ false
      → (or_else "" t == name) ≡ true
      → t ≡ some name
  type_is none name h k = ground (arith, h, k, string_eq.beq_iff "" name, string_eq.beq_iff name "")
  type_is (some s) name h k = ap some ((string_eq.beq_iff s name).0 k)

  -- A price that parses is the price of the tick.
  tick-priced :
      (a : String) (body : String) (price : Option (Decimal o)) (c : Dict String String) (at : ℕ)
      (u : PriceUpdate o.decimal)
      → tick_of (priced o (price_change a) body price) c at ≡ some u
      → (p : Decimal o) × (price ≡ some p) × (update_of o.decimal c a p at ≡ u)
  unfolding ws_event_to_price_update
  tick-priced a body none c at u h = elim (nothing u h) [ ]
  tick-priced a body (some p) c at u h = (p, refl, some_inj u _ h)

  tick-traded :
      (a : String) (body : String) (price : Option (Decimal o)) (c : Dict String String) (at : ℕ)
      (u : PriceUpdate o.decimal)
      → tick_of (priced o (last_trade_price a) body price) c at ≡ some u
      → (p : Decimal o) × (price ≡ some p) × (update_of o.decimal c a p at ≡ u)
  unfolding ws_event_to_price_update
  tick-traded a body none c at u h = elim (nothing u h) [ ]
  tick-traded a body (some p) c at u h = (p, refl, some_inj u _ h)

  text_of :
      (price : Option String) (p : Decimal o)
      → parsed_price o price ≡ some p
      → (text : String) × (price ≡ some text) × (o.decimal.from_str text ≡ some p)
  text_of none p h = elim (nothing p h) [ ]
  text_of (some text) p h = (text, refl, h)

  first_traded :
      (raw : RawWsEvent) (last price : Option String) (text : String)
      → raw.event_type ≡ some "last_trade_price"
      → raw.last_trade_price ≡ last
      → raw.price ≡ price
      → first_of o last price ≡ some text
      → Carries raw text
  first_traded raw none price text t l q h = traded_at t l (q ∙ h)
  first_traded raw (some last) price text t l q h = traded t (l ∙ h)

  silent :
      (b : Bool) (a body : String) (bids asks : List (BookLevel o.decimal)) (c : Dict String String)
      (at : ℕ) (u : PriceUpdate o.decimal)
      → tick_of (if b then book a bids asks else unknown body) c at ≡ some u
      → ⊥
  unfolding ws_event_to_price_update
  silent true a body bids asks c at u h = nothing u h
  silent false a body bids asks c at u h = nothing u h

  -- A tick of an element with an asset id.
  pub carried_by :
      (raw : RawWsEvent) (body a : String) (c : Dict String String) (at : ℕ)
      (u : PriceUpdate o.decimal)
      → tick_of (event_of o raw body a) c at ≡ some u
      → (text : String) × (p : Decimal o) × Carries raw text
        × (o.decimal.from_str text ≡ some p)
        × (update_of o.decimal c a p at ≡ u)
  unfolding event_of
  carried_by raw body a c at u h = elim (Bool-cases (or_else "" raw.event_type == "price_change")) [
    | inl is_change ↦
        let (p, e, same) =
          tick-priced a body (parsed_price o raw.price) c at u (rw is_change at h) in
        let (text, there_is, parses) = text_of raw.price p e in
        (text, p, changed (type_is raw.event_type _ refl is_change) there_is, parses, same)
    | inr no_change ↦ elim (Bool-cases (or_else "" raw.event_type == "last_trade_price")) [
      | inl is_trade ↦
          let (p, e, same) =
            tick-traded a body (parsed_price o (first_of o raw.last_trade_price raw.price)) c at u
              (rw (no_change, is_trade) at h) in
          let (text, there_is, parses) = text_of (first_of o raw.last_trade_price raw.price) p e in
          (
            text,
            p,
            first_traded raw raw.last_trade_price raw.price text
                (type_is raw.event_type _ refl is_trade) refl refl there_is,
            parses,
            same,
          )
      | inr no_trade ↦
          elim (silent (or_else "" raw.event_type == "book") a body _ _ c at u
            (rw (no_change, no_trade) at h)) [ ]
    ]
  ]

  -- A tick of an element, by its asset id.
  reported_by :
      (raw : RawWsEvent) (body : String) (id : Option String) (c : Dict String String) (at : ℕ)
      (u : PriceUpdate o.decimal)
      → raw.asset_id ≡ id
      → tick_of (with_asset o raw body (non_empty id)) c at ≡ some u
      → (a : String) × (p : Decimal o) × Reports raw a p × (update_of o.decimal c a p at ≡ u)
  unfolding ws_event_to_price_update
  reported_by raw body none c at u e h = elim (nothing u h) [ ]
  reported_by raw body (some a) c at u e h = elim (Bool-cases (a == "")) [
    | inl blank ↦ elim (nothing u (rw blank at h)) [ ]
    | inr good ↦
        let (text, p, carries, parses, same) = carried_by raw body a c at u (rw good at h) in
        (
          a,
          p,
          record {
            named = e;
            not_blank = good;
            text = text;
            carried = carries;
            is_number = parses;
          },
          same,
        )
  ]

  ticks :
      (raw : RawWsEvent) (body a text : String) (p : Decimal o) (c : Dict String String) (at : ℕ)
      → Carries raw text
      → o.decimal.from_str text ≡ some p
      → tick_of (event_of o raw body a) c at ≡ some (update_of o.decimal c a p at)
  unfolding event_of ws_event_to_price_update
  ticks raw body a text p c at (changed t q) e = simp (t, q, e)
  ticks raw body a text p c at (traded t q) e = simp (t, q, e)
  ticks raw body a text p c at (traded_at t l q) e = simp (t, l, q, e)

  -- An element of a frame that deserialises becomes a price tick of a token, at a price, exactly when
  -- it names that token (not blank), is a price_change with a price, or a last_trade_price with a last
  -- trade price or else a price, and the text of it is a number, namely that price. The tick carries
  -- the condition id that the connection knows for the token.
  pub parse_single_event-ticks :
      (value : o.Value) (raw : RawWsEvent) (token : String) (price : Decimal o)
      (conditions : Dict String String) (at : ℕ)
      → o.to_raw value ≡ some raw
      → (ws_event_to_price_update o.decimal (parse_single_event o value) conditions at
          ≡ some (update_of o.decimal conditions token price at))
        ↔ Reports raw token price
  unfolding parse_single_event
  parse_single_event-ticks value raw token price conditions at reads = (
    λ h.
        (let (a, p, r, same) =
            reported_by raw (o.show value) raw.asset_id conditions at
              (update_of o.decimal conditions token price at) refl
              (ap (λ x. tick_of (of_raw o (o.show value) x) conditions at) (sym reads) ∙ h) in
          subst (λ t. Reports raw t price) (ap (λ u. u.token_id) same)
            (subst (λ q. Reports raw a q) (ap (λ u. u.price) same) r)),
    λ r.
        (ap (λ x. tick_of (of_raw o (o.show value) x) conditions at) reads
          ∙ ap (λ id. tick_of (with_asset o raw (o.show value) (non_empty id)) conditions at)
              r.named
          ∙ ap
              (λ b.
                tick_of (with_asset o raw (o.show value) (if b then none else some token))
                  conditions at)
              r.not_blank
          ∙ ticks raw (o.show value) token r.text price conditions at r.carried r.is_number),
  )
