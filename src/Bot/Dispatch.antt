-- ===== src/Bot/Dispatch.antt =====
-- crates/pn-bot/src/lib.rs: the routing of updates to the handlers, one update after another.
use poly_notifier.Common.{ℤ, Option, none, some, List, [], ◌∷◌}
use poly_notifier.Store.World.{Exec, pure}
use poly_notifier.Bot.State
use poly_notifier.Bot.State.{
  MarketOption, DialogueState, idle, awaiting_url, awaiting_market_selection,
  awaiting_outcome_selection, awaiting_subscribe_alert_type, awaiting_subscribe_alert_threshold,
  awaiting_alert_subscription, awaiting_alert_type, awaiting_alert_threshold, Command, Message,
  CallbackQuery, Update, message, callback_query, BotDeps, Session, state_of, answer_callback_query,
}
use poly_notifier.Bot.Dialogues.{tapped_id, parsed}
use poly_notifier.Bot.Dialogues.Subscribe.{
  handle_url_input, handle_market_selection, handle_outcome_selection,
  handle_subscribe_alert_type_selection, handle_subscribe_alert_threshold,
}
use poly_notifier.Bot.Dialogues.Alert.{
  handle_alert_subscription_selection, handle_alert_type_selection, handle_alert_threshold,
}
use poly_notifier.Bot.Handlers
use poly_notifier.Bot.Handlers.Lists

module _ (b : BotDeps) where
  unfoldable pub run_command : Message → Command → Exec Session (Unit {0})
  unfolding Handlers.start Handlers.help Lists.list Lists.prices Handlers.subscribe
      Handlers.unsubscribe Handlers.alert Handlers.feedback Handlers.timezone
  run_command msg State.start = Handlers.start b msg
  run_command msg State.help = Handlers.help b msg
  run_command msg State.list = Lists.list b msg
  run_command msg State.prices = Lists.prices b msg
  run_command msg State.subscribe = Handlers.subscribe b msg
  run_command msg State.unsubscribe = Handlers.unsubscribe b msg
  run_command msg State.alert = Handlers.alert b msg
  run_command msg State.feedback = Handlers.feedback b msg
  run_command msg (State.timezone tz) = Handlers.timezone b msg tz

  -- A message that is no command, by the state of the chat. The default handler drops the others.
  unfoldable pub plain_message : Message → DialogueState → Exec Session (Unit {0})
  unfolding handle_url_input handle_subscribe_alert_threshold handle_alert_threshold
  plain_message msg awaiting_url = handle_url_input b msg
  plain_message msg (awaiting_subscribe_alert_threshold market outcome_index alert_type) =
      handle_subscribe_alert_threshold b msg market outcome_index alert_type
  plain_message msg (awaiting_alert_threshold subscription_id question alert_type) =
      handle_alert_threshold b msg subscription_id question alert_type
  plain_message msg _ = pure tt

  unfoldable pub handle_message : Message → Option Command → Exec Session (Unit {0})
  unfolding run_command plain_message state_of
  handle_message msg (some command) s = run_command msg command s
  handle_message msg none s = plain_message msg (state_of msg.chat_id s) s

  unfoldable pub one_shot : CallbackQuery → Option ℤ → Exec Session (Unit {0})
  unfolding Handlers.callback_unsubscribe
  one_shot q none = answer_callback_query
  one_shot q (some sub_id) = Handlers.callback_unsubscribe b q sub_id

  unfoldable pub dispatch_callback : CallbackQuery → Exec Session (Unit {0})
  unfolding one_shot tapped_id
  dispatch_callback q = one_shot q (parsed (tapped_id "unsub:") q.data_text)

  -- A tapped button, by the state of the chat.
  unfoldable pub tapped_in : ℤ → CallbackQuery → DialogueState → Exec Session (Unit {0})
  unfolding dispatch_callback handle_market_selection handle_outcome_selection
      handle_subscribe_alert_type_selection handle_alert_subscription_selection
      handle_alert_type_selection
  tapped_in chat q (awaiting_market_selection markets) = handle_market_selection b chat q markets
  tapped_in chat q (awaiting_outcome_selection market) = handle_outcome_selection b chat q market
  tapped_in chat q (awaiting_subscribe_alert_type market outcome_index) =
      handle_subscribe_alert_type_selection b chat q market outcome_index
  tapped_in chat q awaiting_alert_subscription = handle_alert_subscription_selection b chat q
  tapped_in chat q (awaiting_alert_type subscription_id question) =
      handle_alert_type_selection b chat q subscription_id question
  tapped_in chat q _ = dispatch_callback q

  unfoldable pub handle_callback : CallbackQuery → Option ℤ → Exec Session (Unit {0})
  unfolding tapped_in dispatch_callback state_of
  handle_callback q none s = dispatch_callback q s
  handle_callback q (some chat) s = tapped_in chat q (state_of chat s) s

  unfoldable pub handle_update : Update → Exec Session (Unit {0})
  unfolding handle_message handle_callback
  handle_update (message msg) = handle_message msg (b.parse_command msg)
  handle_update (callback_query q) = handle_callback q q.chat

  -- The dispatcher logs the error of a handler and goes on.
  unfoldable pub dispatch : List Update → Session → Session
  unfolding handle_update
  dispatch [] s = s
  dispatch (u ∷ updates) s = dispatch updates (handle_update u s).1
