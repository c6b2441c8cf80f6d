-- ===== src/Examples/Bot.antt =====
-- The theorems on the Telegram bot at a concrete conversation.
use poly_notifier.Common.{
  ℕ, ◌/◌, ◌++◌, ℤ, pos, String, ◌==◌, string_eq, int_eq, ◌≡◌, refl, true, not, Option, none, some,
  List, [], ◌∷◌, map, keep, All, arith, leb, if◌then◌else◌,
}
use poly_notifier.Store.Rows.{ok, err, other}
use poly_notifier.Common.Texts.{trim_start, trim_end}
use poly_notifier.Common.Numerals.{show_ℤ}
use poly_notifier.Store.World.{Db, ◌>>=◌, telegram_send, ask, telegram_request, statement, now}
use poly_notifier.Interfaces.{FloatOps, IsRounding}
use poly_notifier.Bot.State
use poly_notifier.Polymarket.Types.{GammaMarket}
use poly_notifier.Bot.State.{
  MarketOption, DialogueState, idle, awaiting_url, awaiting_alert_subscription, Command, Message,
  CallbackQuery, Update, message, callback_query, BotDeps, Session, state_of,
}
use poly_notifier.Bot.Dispatch.{dispatch, handle_update}
use poly_notifier.Bot.Keyboards.{
  market_list_keyboard, outcome_keyboard, subscription_list_keyboard, unsubscribe_keyboard,
}
use poly_notifier.Bot.Dialogues.{parsed, tapped_index, tapped_id, threshold_of, read_percentage}
use poly_notifier.Bot.Effects.Quota.{IsWithinQuota}
use poly_notifier.Bot.Effects.Quota.Kept.{dispatch-IsWithinQuota}
use poly_notifier.Bot.Effects.Valid.{IsAlert, IsClean, dispatch-IsAlert, dispatch-IsClean}
use poly_notifier.Bot.Moves.{Walk}
use poly_notifier.Bot.Moves.Updates.{dispatch-Walk}
use poly_notifier.Bot.Taps.{row_data, read_rows, keyboards-tapped_index, keyboards-read_rows}
use poly_notifier.Bot.Removal.{handle_update-swallows, handle_update-removes}
use poly_notifier.Bot.Dialogues.Subscribe.{handle_subscribe_alert_threshold}
use poly_notifier.Bot.Rows.{new_subscription, new_alert}
use poly_notifier.Bot.Subscribing.Success.{handle_subscribe_alert_threshold-subscribes}
use poly_notifier.Examples.{ada, rain, cents, one_text, small_world, small_db}

-- Whole numbers, of which 70 is the one that is read.
abbrev whole : FloatOps
whole = record {
  number = λ n. record { bits = n };
  parse_f64 = λ s. if s == "70" then some (record { bits = 70 }) else none;
  le = λ p q. leb p.bits q.bits;
  div = λ p q. record { bits = p.bits / 100 };
  mul = λ p q. p;
  show_whole = λ p. "n";
  show_tenths = λ p. "n";
  parse_floats = λ s. none;
}

whole-IsRounding : IsRounding whole
whole-IsRounding = record { div_hundred = λ p h k. (ground (arith, h), ground (arith, k)) }

abbrev btc : GammaMarket
btc = record {
  condition_id = "b";
  question = "BTC?";
  slug = "btc";
  outcomes = "";
  active = true;
  tokens =
      record { token_id = "t0"; outcome = "Yes" } ∷ record { token_id = "t1"; outcome = "No" } ∷ [];
}

abbrev command_of : Option String → Option Command
command_of none = none
command_of (some t) =
    if t == "/subscribe"
    then some State.subscribe
    else if t == "/unsubscribe"
    then some State.unsubscribe
    else none

abbrev deps : BotDeps
deps = record {
  bot_id = "7";
  float = whole;
  json = one_text;
  decimal = cents;
  show_price = λ p. "p";
  parse_command = λ msg. command_of msg.text;
  descriptions = "help";
  get_market_by_slug = λ slug i. err (other "no such market");
  search_markets = λ query i. ok (btc ∷ []);
  get_midpoints = λ ids i. ok [];
}

abbrev says : String → Update
says t = message record {
  chat_id = pos 9;
  from = some (record { id = 77; username = none; first_name = "Ada" });
  text = some t;
}

abbrev taps : String → Update
taps t = callback_query record { data_text = some t; chat = some (pos 9) }

abbrev bot_db : Db
bot_db = record small_db { next_user = 2; next_market = 2; next_subscription = 2 }

abbrev start_session : Session
start_session = record { world = record small_world { db = bot_db }; dialogues = []; shown = [] }

abbrev conversation : List Update
conversation =
    says "/subscribe" ∷ says "btc" ∷ taps "outcome:1" ∷ taps "alert_type:above" ∷ says "70" ∷ []

conversation_subscribes :
    map (λ s. s.outcome_index) (dispatch deps conversation start_session).subscriptions
    ≡ pos 0 ∷ pos 1 ∷ []
unfolding dispatch ◌>>=◌ State.in_world trim_start trim_end telegram_send ask telegram_request
    statement now
conversation_subscribes = refl

conversation_alerts :
    map (λ a. a.alert_type) (dispatch deps conversation start_session).alerts ≡ "above" ∷ []
unfolding dispatch ◌>>=◌ State.in_world trim_start trim_end telegram_send ask telegram_request
    statement now
conversation_alerts = refl

start-IsWithinQuota : IsWithinQuota bot_db
unfolding IsWithinQuota
start-IsWithinQuota = record {
  ids = (tt, tt);
  fresh = (refl, tt);
  owned = (refl, tt);
  within = (refl, tt);
}

dispatch-IsWithinQuota_example : IsWithinQuota (dispatch deps conversation start_session).db
dispatch-IsWithinQuota_example =
    dispatch-IsWithinQuota deps conversation start_session start-IsWithinQuota

dispatch-IsAlert_example : All (IsAlert whole) (dispatch deps conversation start_session).db.alerts
dispatch-IsAlert_example = dispatch-IsAlert deps whole-IsRounding conversation start_session tt

dispatch-IsClean_example : All IsClean (dispatch deps conversation start_session).db.users
dispatch-IsClean_example = dispatch-IsClean deps conversation start_session (refl, tt)

dispatch-Walk_example :
    Walk deps
      (pos 9)
      conversation
      (state_of (pos 9) start_session)
      (state_of (pos 9) (dispatch deps conversation start_session))
dispatch-Walk_example = dispatch-Walk deps conversation start_session (pos 9)

abbrev two_markets : List MarketOption
two_markets =
    record { condition_id = "b"; question = "BTC?"; outcomes = []; token_ids = [] }
    ∷ record { condition_id = "e"; question = "ETH?"; outcomes = []; token_ids = [] }
    ∷ []

keyboards-tapped_index_example :
    (parsed (tapped_index "market:") (row_data 1 (market_list_keyboard two_markets)) ≡ some 1)
    × (parsed (tapped_id "outcome:") (row_data 0 (outcome_keyboard ("Yes" ∷ "No" ∷ [])))
        ≡ some (pos 0))
keyboards-tapped_index_example =
    keyboards-tapped_index two_markets ("Yes" ∷ "No" ∷ []) 1 0 (omega arith) (omega arith)
      (omega arith) (omega arith)

abbrev items : List (ℤ × String)
items = (pos 12, "BTC? (outcome 0)") ∷ (pos 3, "ETH? (outcome 1)") ∷ []

keyboards-read_rows_example :
    (read_rows "sub:" (subscription_list_keyboard items) ≡ map (λ it. some it.0) items)
    × (read_rows "unsub:" (unsubscribe_keyboard items) ≡ map (λ it. some it.0) items)
keyboards-read_rows_example =
    keyboards-read_rows items ((omega arith, omega arith), ((omega arith, omega arith), tt))

abbrev waiting : Session
waiting = record start_session { dialogues = (pos 9, awaiting_alert_subscription) ∷ [] }

abbrev removal : CallbackQuery
removal = record { data_text = some "unsub:1"; chat = some (pos 9) }

handle_update-swallows_example :
    (handle_update deps (callback_query removal) waiting).1.db ≡ waiting.db
unfolding show_ℤ state_of
handle_update-swallows_example =
    handle_update-swallows deps removal (pos 9) (pos 1) waiting refl refl refl

handle_update-removes_example :
    let d = (handle_update deps (callback_query removal) start_session).1.db in
    (d.subscriptions ≡ keep (λ x. not (x.id == pos 1)) start_session.subscriptions)
    × ((d.alerts ≡ keep (λ a. not (a.subscription_id == pos 1)) start_session.alerts)
        × ((d.users ≡ start_session.users) × (d.markets ≡ start_session.markets)))
unfolding show_ℤ state_of
handle_update-removes_example =
    handle_update-removes deps removal (pos 9) (pos 1) start_session refl refl
      (omega arith, omega arith) refl refl refl refl

abbrev seventy : Message
seventy = record {
  chat_id = pos 9;
  from = some (record { id = 77; username = none; first_name = "Ada" });
  text = some "70";
}

abbrev rain_option : MarketOption
rain_option = record {
  condition_id = "c";
  question = "Rain?";
  outcomes = "Yes" ∷ "No" ∷ [];
  token_ids = "t" ∷ "u" ∷ [];
}

handle_subscribe_alert_threshold-subscribes_example :
    let d =
      (handle_subscribe_alert_threshold deps seventy rain_option
        (pos 1)
        "below"
        start_session).1.db in
    (at : ℕ) × (at' : ℕ) × (d.subscriptions
      ≡ start_session.subscriptions ++ new_subscription (pos 2) (pos 1) (pos 1) (pos 1) at ∷ [])
    × (d.alerts
        ≡ start_session.alerts
          ++ new_alert (pos 1) (pos 2) "below" (threshold_of deps (record { bits = 70 })) at' ∷ [])
unfolding read_percentage trim_start trim_end
handle_subscribe_alert_threshold-subscribes_example =
    handle_subscribe_alert_threshold-subscribes deps seventy rain_option (pos 1) "below" "70"
      (record { bits = 70 }) (record { id = 77; username = none; first_name = "Ada" }) ada rain
      start_session refl refl refl refl refl refl refl refl refl λ n. refl
