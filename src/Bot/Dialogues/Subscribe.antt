-- ===== src/Bot/Dialogues/Subscribe.antt =====
-- crates/pn-bot/src/dialogues.rs, the subscribe flow: address or query, market, outcome, alert type,
-- threshold.
use poly_notifier.Common.{
  ℕ, zero, suc, ℤ, pos, leb_ℤ, String, ◌==◌, string_eq, ◌<>◌, Option, none, some, List, [], ◌∷◌,
  map, if◌then◌else◌, take, get_elem?,
}
use poly_notifier.Common.Int.{as_i64}
use poly_notifier.Common.Texts.{trim}
use poly_notifier.Common.Numerals.{show_ℤ}
use poly_notifier.Store.Rows.{F64, User, Subscription, Result, ok, err}
use poly_notifier.Store.World.{Exec, pure, attempt, ◌>>=◌, ◌>>◌, ask, select, statement}
use poly_notifier.Store.Users.{get_or_create_user}
use poly_notifier.Store.Markets.{upsert_market}
use poly_notifier.Store.Subscriptions.{count_active_subscriptions}
use poly_notifier.Polymarket.Types.{GammaMarket}
use poly_notifier.Bot.State.{
  MarketOption, idle, awaiting_url, awaiting_market_selection, awaiting_outcome_selection,
  awaiting_subscribe_alert_type, awaiting_subscribe_alert_threshold, Sender, Message, CallbackQuery,
  BotDeps, Session, update_dialogue, in_world, say, say_with, answer_callback_query,
}
use poly_notifier.Bot.Keyboards.{market_list_keyboard, outcome_keyboard, alert_type_keyboard}
use poly_notifier.Bot.Rows.{insert_subscription, find_subscription, insert_alert_row}
use poly_notifier.Bot.Dialogues.{
  extract_slug_from_url, outcome_label, tapped_index, tapped_id, tapped_alert_type, parsed,
  with_percentage, with_sender, ask_threshold, threshold_of,
}

module _ (b : BotDeps) where
  unfoldable pub handle_subscribe_start : Message → Exec Session (Unit {0})
  unfolding update_dialogue
  handle_subscribe_start msg = do
    update_dialogue msg.chat_id awaiting_url
    say b msg.chat_id
        "Paste a Polymarket event URL (e.g. https://polymarket.com/event/…)\nor type a search query:"

  abbrev pub option_of : GammaMarket → MarketOption
  option_of m = record {
    condition_id = m.condition_id;
    question = m.question;
    outcomes = map (λ t. t.outcome) m.tokens;
    token_ids = map (λ t. t.token_id) m.tokens;
  }

  -- The outcomes of one market, and the wait for one of them.
  unfoldable pub offer_outcomes : ℤ → MarketOption → Exec Session (Unit {0})
  unfolding update_dialogue outcome_keyboard
  offer_outcomes chat market = do
    say_with b chat ("Market: " <> (market.question <> "\n\nSelect an outcome:"))
        (outcome_keyboard market.outcomes)
    update_dialogue chat (awaiting_outcome_selection market)

  unfoldable pub offer_markets : ℤ → List MarketOption → Exec Session (Unit {0})
  unfolding offer_outcomes update_dialogue market_list_keyboard
  offer_markets chat (market ∷ []) = offer_outcomes chat market
  offer_markets chat options = do
    say_with b chat "Select a market:" (market_list_keyboard options)
    update_dialogue chat (awaiting_market_selection options)

  unfoldable pub show_found : ℤ → Result (List GammaMarket) → Exec Session (Unit {0})
  unfolding offer_markets
  show_found chat (err e) = say b chat "Search failed. Please try again later."
  show_found chat (ok []) =
      say b chat "No active markets found. Try a different URL or search term."
  show_found chat (ok (m ∷ markets)) = offer_markets chat (map option_of (take 10 (m ∷ markets)))

  abbrev pub look_up : String → Option String → Exec Session (List GammaMarket)
  look_up text (some slug) = in_world (ask (b.get_market_by_slug slug))
  look_up text none = in_world (ask (b.search_markets text))

  unfoldable pub search : ℤ → String → Exec Session (Unit {0})
  unfolding show_found extract_slug_from_url
  search chat text = do
    say b chat "Searching…"
    found ← attempt (look_up text (extract_slug_from_url text))
    show_found chat found

  unfoldable pub url_text : ℤ → Option String → Exec Session (Unit {0})
  unfolding search
  url_text chat none = say b chat "Please send a text message."
  url_text chat (some text) =
      if trim text == ""
      then say b chat "Input cannot be empty. Try again:"
      else search chat (trim text)

  unfoldable pub handle_url_input : Message → Exec Session (Unit {0})
  unfolding url_text
  handle_url_input msg = url_text msg.chat_id msg.text

  -- The market at the tapped place, in a chat that is known or not.
  unfoldable pub pick_market : ℤ → Option ℤ → Option MarketOption → Exec Session (Unit {0})
  unfolding offer_outcomes update_dialogue
  pick_market key none none = update_dialogue key idle
  pick_market key (some chat) none = do
    say b chat "Invalid selection. Please try /subscribe again."
    update_dialogue key idle
  pick_market key none (some market) = pure tt
  pick_market key (some chat) (some market) = offer_outcomes chat market

  unfoldable pub market_at : ℤ → Option ℤ → List MarketOption → Option ℕ → Exec Session (Unit {0})
  unfolding pick_market
  market_at key chat markets none = pure tt
  market_at key chat markets (some i) = pick_market key chat (get_elem? markets i)

  unfoldable pub handle_market_selection :
      ℤ → CallbackQuery → List MarketOption → Exec Session (Unit {0})
  unfolding market_at tapped_index
  handle_market_selection key q markets = do
    answer_callback_query
    market_at key q.chat markets (parsed (tapped_index "market:") q.data_text)

  unfoldable pub outcome_tapped : ℤ → Option ℤ → MarketOption → Option ℤ → Exec Session (Unit {0})
  unfolding update_dialogue alert_type_keyboard outcome_label
  outcome_tapped key chat market none = pure tt
  outcome_tapped key none market (some outcome_index) = pure tt
  outcome_tapped key (some chat) market (some outcome_index) = do
    say_with b chat
        ("Market: "
          <> (market.question
              <> ("\nOutcome: "
                  <> (outcome_label market.outcomes outcome_index <> "\n\nSelect alert type:"))))
        alert_type_keyboard
    update_dialogue key (awaiting_subscribe_alert_type market outcome_index)

  unfoldable pub handle_outcome_selection :
      ℤ → CallbackQuery → MarketOption → Exec Session (Unit {0})
  unfolding outcome_tapped tapped_id
  handle_outcome_selection key q market = do
    answer_callback_query
    outcome_tapped key q.chat market (parsed (tapped_id "outcome:") q.data_text)

  unfoldable pub handle_subscribe_alert_type_selection :
      ℤ → CallbackQuery → MarketOption → ℤ → Exec Session (Unit {0})
  unfolding ask_threshold tapped_alert_type
  handle_subscribe_alert_type_selection key q market outcome_index = do
    answer_callback_query
    ask_threshold b key q.chat (awaiting_subscribe_alert_threshold market outcome_index)
        (parsed tapped_alert_type q.data_text)

  -- What the flow has gathered when the percentage comes.
  pub record Wish : Type 0 where
    pub chat : ℤ
    pub market : MarketOption
    pub outcome_index : ℤ
    pub alert_type : String
    pub pct : F64

  -- A last message, and the end of the conversation.
  unfoldable pub finish : ℤ → String → Exec Session (Unit {0})
  unfolding update_dialogue
  finish chat text = do say b chat text; update_dialogue chat idle

  abbrev label_of : Wish → String
  label_of r = outcome_label r.market.outcomes r.outcome_index

  alert_answer : Wish → Result ℕ → String
  unfolding outcome_label
  alert_answer r (ok n) =
      "Subscribed with alert!\nMarket: "
      <> (r.market.question
          <> ("\nOutcome: "
              <> (label_of r
                  <> ("\nAlert: "
                      <> (r.alert_type <> (" " <> (b.float.show_whole r.pct <> "%")))))))
  alert_answer r (err e) =
      "Subscribed to "
      <> (label_of r
          <> (" on:\n"
              <> (r.market.question
                  <> "\n\n⚠\u{fe0f} Failed to create alert. Use /alert to add one.")))

  unfoldable pub first_alert : Wish → Option Subscription → Exec Session (Unit {0})
  unfolding finish alert_answer insert_alert_row
  first_alert r none = finish r.chat "Failed to find subscription. Please try again."
  first_alert r (some s) = do
    inserted ←
        attempt (in_world (statement (insert_alert_row s.id r.alert_type (threshold_of b r.pct))))
    finish r.chat (alert_answer r inserted)

  -- After the INSERT OR IGNORE of the subscription.
  unfoldable pub inserted_subscription : Wish → ℤ → ℤ → Result ℕ → Exec Session (Unit {0})
  unfolding first_alert finish outcome_label
  inserted_subscription r user_id market_id (err e) =
      finish r.chat "Failed to create subscription. Please try again."
  inserted_subscription r user_id market_id (ok zero) =
      finish r.chat
        ("You are already subscribed to " <> (label_of r <> (" on:\n" <> r.market.question)))
  inserted_subscription r user_id market_id (ok (suc n)) = do
    row ← in_world (select (find_subscription user_id market_id r.outcome_index))
    first_alert r row

  unfoldable pub create_subscription : Wish → User → Exec Session (Unit {0})
  unfolding inserted_subscription upsert_market insert_subscription
  create_subscription r user = do
    market_id ← in_world (
        upsert_market r.market.condition_id r.market.question none
          (b.json.print_strings r.market.outcomes) (b.json.print_strings r.market.token_ids))
    inserted ←
        attempt (in_world (statement (insert_subscription user.id market_id r.outcome_index)))
    inserted_subscription r user.id market_id inserted

  -- The quota check.
  unfoldable pub within_quota : Wish → User → ℕ → Exec Session (Unit {0})
  unfolding create_subscription finish
  within_quota r user active_count =
      if leb_ℤ user.max_subscriptions (pos active_count)
      then finish r.chat (
          "You have reached your subscription limit ("
          <> (show_ℤ user.max_subscriptions <> "). Unsubscribe from a market first."))
      else create_subscription r user

  unfoldable pub subscribe_sender : Wish → Sender → Exec Session (Unit {0})
  unfolding within_quota get_or_create_user count_active_subscriptions
  subscribe_sender r sender = do
    user ← in_world (get_or_create_user (as_i64 sender.id) b.bot_id sender.username)
    active_count ← in_world (count_active_subscriptions user.id)
    within_quota r user active_count

  unfoldable pub handle_subscribe_alert_threshold :
      Message → MarketOption → ℤ → String → Exec Session (Unit {0})
  unfolding with_percentage subscribe_sender
  handle_subscribe_alert_threshold msg market outcome_index alert_type =
      with_percentage b msg.chat_id msg.text λ pct. with_sender b msg.from (
        subscribe_sender record {
          chat = msg.chat_id;
          market = market;
          outcome_index = outcome_index;
          alert_type = alert_type;
          pct = pct;
        })
