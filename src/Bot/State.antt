-- ===== src/Bot/State.antt =====
-- crates/pn-bot/src/dialogues.rs, commands.rs and lib.rs: what the handlers of one bot share, the
-- conversations of its chats, and the requests to Telegram.
use poly_notifier.Common.{ℕ, ℤ, int_eq, String, Option, none, some, List, [], ◌∷◌, ◌++◌}
use poly_notifier.Common.Dict.{Dict, get, insert}
use poly_notifier.Store.Rows.{Result, ok}
use poly_notifier.Polymarket.Types.{GammaMarket}
use poly_notifier.Store.World.{World, Exec, ◌>>◌, telegram_send, telegram_request}
use poly_notifier.Interfaces.{FloatOps, JsonOps, DecimalOps}

pub record MarketOption : Type 0 where
  pub condition_id : String
  pub question : String
  pub outcomes : List String
  pub token_ids : List String

-- The four fields of a chosen market stand as the MarketOption that they are copied from.
pub data DialogueState : Type 0 where
  idle awaiting_url : DialogueState
  awaiting_market_selection : (markets : List MarketOption) → DialogueState
  awaiting_outcome_selection : (market : MarketOption) → DialogueState
  awaiting_subscribe_alert_type : (market : MarketOption) (outcome_index : ℤ) → DialogueState
  awaiting_subscribe_alert_threshold :
      (market : MarketOption) (outcome_index : ℤ) (alert_type : String) → DialogueState
  awaiting_alert_subscription : DialogueState
  awaiting_alert_type : (subscription_id : ℤ) (question : String) → DialogueState
  awaiting_alert_threshold : (subscription_id : ℤ) (question alert_type : String) → DialogueState

pub data Command : Type 0 where
  start subscribe unsubscribe alert list prices feedback help : Command
  timezone : String → Command

-- teloxide's User, Message, CallbackQuery and Update, as far as the handlers read them.
pub record Sender : Type 0 where
  pub id : ℕ
  pub username : Option String
  pub first_name : String

pub record Message : Type 0 where
  pub chat_id : ℤ
  pub from : Option Sender
  pub text : Option String

pub record CallbackQuery : Type 0 where
  pub data_text : Option String
  -- the chat of the message that the button belongs to
  pub chat : Option ℤ

pub data Update : Type 0 where
  message : Message → Update
  callback_query : CallbackQuery → Update

pub record Button : Type 0 where
  pub label : String
  pub callback_data : String

abbrev pub Keyboard : Type 0
Keyboard = List (List Button)

-- The dependencies of the handlers: the libraries, teloxide's parser and printer of the commands,
-- and the clients of the web services, which answer by the number of the call.
pub record BotDeps : Type 1 where
  pub bot_id : String
  pub float : FloatOps
  pub json : JsonOps
  pub decimal : DecimalOps
  -- {:.1} of a Decimal
  pub show_price : decimal.Decimal → String
  pub parse_command : Message → Option Command
  pub descriptions : String
  pub get_market_by_slug : String → ℕ → Result (List GammaMarket)
  pub search_markets : String → ℕ → Result (List GammaMarket)
  pub get_midpoints : List String → ℕ → Result (Dict String decimal.Decimal)

-- The conversation of every chat, in memory, and the keyboards that were sent.
pub record Session : Type 0 where
  pub world : World
  pub open world use *
  pub dialogues : Dict ℤ DialogueState
  pub shown : List (ℤ × Keyboard)

abbrev pub state_or_idle : Option DialogueState → DialogueState
state_or_idle none = idle
state_or_idle (some st) = st

-- get_or_default of InMemStorage
unfoldable pub state_of : ℤ → Session → DialogueState
unfolding get
state_of chat s = state_or_idle (get chat s.dialogues)

-- dialogue.update(st)
unfoldable pub update_dialogue : ℤ → DialogueState → Exec Session (Unit {0})
unfolding insert
update_dialogue chat st s = (ok tt, record s { dialogues = insert chat st s.dialogues })

unfoldable pub in_world {ℓ} : {A : Type ℓ} → Exec World A → Exec Session A
in_world m s = let (r, w) = m s.world in (r, record s { world = w })

abbrev add_shown : ℤ → Keyboard → Exec Session (Unit {0})
add_shown chat kb s = (ok tt, record s { shown = s.shown ++ (chat, kb) ∷ [] })

module _ (b : BotDeps) where
  -- bot.send_message(chat, text).await?
  abbrev pub say : ℤ → String → Exec Session (Unit {0})
  say chat text = in_world (telegram_send b.bot_id chat text)

  -- bot.send_message(chat, text).reply_markup(kb).await?
  abbrev pub say_with : ℤ → String → Keyboard → Exec Session (Unit {0})
  say_with chat text kb = do say chat text; add_shown chat kb

-- bot.answer_callback_query(q.id).await?
abbrev pub answer_callback_query : Exec Session (Unit {0})
answer_callback_query = in_world telegram_request
