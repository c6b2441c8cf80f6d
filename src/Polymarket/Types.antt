-- ===== src/Polymarket/Types.antt =====
-- crates/pn-polymarket/src/types.rs: the markets and events that the clients return, and the objects
-- of the wire that they read.
use poly_notifier.Common.{String, Bool, Option, List}
use poly_notifier.Interfaces.{DecimalOps}

pub record GammaToken : Type 0 where
  pub token_id : String
  pub outcome : String

pub record GammaMarket : Type 0 where
  pub condition_id : String
  pub question : String
  pub slug : String
  pub outcomes : String
  pub tokens : List GammaToken
  pub active : Bool

pub record GammaRawMarket : Type 0 where
  pub condition_id : Option String
  pub question : Option String
  pub outcomes : Option String
  pub clob_token_ids : Option String
  pub active : Option Bool
  pub slug : Option String

pub record GammaEvent : Type 0 where
  pub title : Option String
  pub slug : Option String
  pub markets : Option (List GammaRawMarket)

pub record RawBookLevel : Type 0 where
  pub price : String
  pub size : String

pub record RawWsEvent : Type 0 where
  pub event_type : Option String
  pub asset_id : Option String
  pub price : Option String
  pub last_trade_price : Option String
  pub bids : Option (List RawBookLevel)
  pub asks : Option (List RawBookLevel)

module _ (n : DecimalOps) where
  pub record BookLevel : Type 0 where
    pub price : n.Decimal
    pub size : n.Decimal

  pub data WsEvent : Type 0 where
    price_change last_trade_price : String → n.Decimal → WsEvent
    book : String → List BookLevel → List BookLevel → WsEvent
    unknown : String → WsEvent
