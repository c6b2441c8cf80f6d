-- ===== src/Bot/Effects/Updates.antt =====
-- lib.rs: the routing of updates does only what the bot may do to the rows.
use poly_notifier.Common.{ℤ, Option, none, some, List, [], ◌∷◌}
use poly_notifier.Store.Rows.{Result, ok, err}
use poly_notifier.Store.World.{Db}
use poly_notifier.Store.Triples.{After}
use poly_notifier.Bot.State
use poly_notifier.Bot.State.{
  DialogueState, idle, awaiting_url, awaiting_market_selection, awaiting_outcome_selection,
  awaiting_subscribe_alert_type, awaiting_subscribe_alert_threshold, awaiting_alert_subscription,
  awaiting_alert_type, awaiting_alert_threshold, Command, Message, CallbackQuery, Update, message,
  callback_query, BotDeps, Session, state_of,
}
use poly_notifier.Bot.Handlers.{subscribe, alert}
use poly_notifier.Bot.Dispatch.{
  run_command, plain_message, handle_message, one_shot, dispatch_callback, tapped_in,
  handle_callback, handle_update, dispatch,
}
use poly_notifier.Bot.Effects.{Effect, Effects, stay, step, From}
use poly_notifier.Bot.Effects.Dialogues.{
  Stays, done, Triple-answer, handle_subscribe_start-Stays, handle_url_input-Stays,
  handle_market_selection-Stays, handle_outcome_selection-Stays,
  handle_subscribe_alert_type_selection-Stays,
}
use poly_notifier.Bot.Effects.Thresholds.{handle_subscribe_alert_threshold-Stays}
use poly_notifier.Bot.Effects.Alert.{
  handle_alert_start-Stays, handle_alert_subscription_selection-Stays,
  handle_alert_type_selection-Stays, handle_alert_threshold-Stays,
}
use poly_notifier.Bot.Effects.Handlers.{
  start-Stays, help-Stays, list-Stays, prices-Stays, unsubscribe-Stays, timezone-Stays,
  callback_unsubscribe-Stays, feedback-Stays,
}

module _ (b : BotDeps) where
  module _ (d₀ : Db) where
    run_command-Stays : (msg : Message) (c : Command) → Stays b d₀ (run_command b msg c)
    unfolding run_command subscribe alert
    run_command-Stays msg State.start = start-Stays b d₀ msg
    run_command-Stays msg State.help = help-Stays b d₀ msg
    run_command-Stays msg State.list = list-Stays b d₀ msg
    run_command-Stays msg State.prices = prices-Stays b d₀ msg
    run_command-Stays msg State.subscribe = handle_subscribe_start-Stays b d₀ msg
    run_command-Stays msg State.unsubscribe = unsubscribe-Stays b d₀ msg
    run_command-Stays msg State.alert = handle_alert_start-Stays b d₀ msg
    run_command-Stays msg State.feedback = feedback-Stays b d₀ msg
    run_command-Stays msg (State.timezone tz) = timezone-Stays b d₀ msg tz

    plain_message-Stays : (msg : Message) (st : DialogueState) → Stays b d₀ (plain_message b msg st)
    unfolding plain_message
    plain_message-Stays msg idle = done b d₀
    plain_message-Stays msg awaiting_url = handle_url_input-Stays b d₀ msg
    plain_message-Stays msg (awaiting_market_selection ms) = done b d₀
    plain_message-Stays msg (awaiting_outcome_selection m) = done b d₀
    plain_message-Stays msg (awaiting_subscribe_alert_type m i) = done b d₀
    plain_message-Stays msg (awaiting_subscribe_alert_threshold m i t) =
        handle_subscribe_alert_threshold-Stays b d₀ msg m i t
    plain_message-Stays msg awaiting_alert_subscription = done b d₀
    plain_message-Stays msg (awaiting_alert_type id q) = done b d₀
    plain_message-Stays msg (awaiting_alert_threshold id q t) =
        handle_alert_threshold-Stays b d₀ msg id q t

    handle_message-Stays :
        (msg : Message) (o : Option Command) → Stays b d₀ (handle_message b msg o)
    unfolding handle_message
    handle_message-Stays msg (some c) = record { at = (run_command-Stays msg c).at }
    handle_message-Stays msg none = record {
      at = λ s. (plain_message-Stays msg (state_of msg.chat_id s)).at s;
    }

    one_shot-Stays : (q : CallbackQuery) (o : Option ℤ) → Stays b d₀ (one_shot b q o)
    unfolding one_shot
    one_shot-Stays q none = Triple-answer b (From b d₀)
    one_shot-Stays q (some id) = callback_unsubscribe-Stays b d₀ q id

    dispatch_callback-Stays : (q : CallbackQuery) → Stays b d₀ (dispatch_callback b q)
    unfolding dispatch_callback
    dispatch_callback-Stays q = one_shot-Stays q _

    tapped_in-Stays :
        (chat : ℤ) (q : CallbackQuery) (st : DialogueState) → Stays b d₀ (tapped_in b chat q st)
    unfolding tapped_in
    tapped_in-Stays chat q idle = dispatch_callback-Stays q
    tapped_in-Stays chat q awaiting_url = dispatch_callback-Stays q
    tapped_in-Stays chat q (awaiting_market_selection ms) =
        handle_market_selection-Stays b d₀ chat q ms
    tapped_in-Stays chat q (awaiting_outcome_selection m) =
        handle_outcome_selection-Stays b d₀ chat q m
    tapped_in-Stays chat q (awaiting_subscribe_alert_type m i) =
        handle_subscribe_alert_type_selection-Stays b d₀ chat q m i
    tapped_in-Stays chat q (awaiting_subscribe_alert_threshold m i t) = dispatch_callback-Stays q
    tapped_in-Stays chat q awaiting_alert_subscription =
        handle_alert_subscription_selection-Stays b d₀ chat q
    tapped_in-Stays chat q (awaiting_alert_type id question) =
        handle_alert_type_selection-Stays b d₀ chat q id question
    tapped_in-Stays chat q (awaiting_alert_threshold id question t) = dispatch_callback-Stays q

    handle_callback-Stays : (q : CallbackQuery) (o : Option ℤ) → Stays b d₀ (handle_callback b q o)
    unfolding handle_callback
    handle_callback-Stays q none = record { at = (dispatch_callback-Stays q).at }
    handle_callback-Stays q (some chat) = record {
      at = λ s. (tapped_in-Stays chat q (state_of chat s)).at s;
    }

    handle_update-Stays : (u : Update) → Stays b d₀ (handle_update b u)
    unfolding handle_update
    handle_update-Stays (message msg) = handle_message-Stays msg (b.parse_command msg)
    handle_update-Stays (callback_query q) = handle_callback-Stays q q.chat

    settled :
        {A : Type 0} (r : Result A) (d : Db) → After (λ a. From b d₀) (From b d₀) r d → From b d₀ d
    unfolding After
    settled (ok a) d p = p
    settled (err e) d p = p

    dispatch-From :
        (us : List Update) (s : Session) → From b d₀ s.db → From b d₀ (dispatch b us s).db
    unfolding dispatch
    dispatch-From [] s p = p
    dispatch-From (u ∷ us) s p = dispatch-From us (handle_update b u s).1 (
        settled (handle_update b u s).0 (handle_update b u s).1.db ((handle_update-Stays u).at s p))

  -- Whatever updates come, in whatever order, and whatever fails or is answered on the way, what the
  -- bot does to the database is a sequence of the effects of `Effect`.
  pub dispatch-Effects : (us : List Update) (s : Session) → Effects b s.db (dispatch b us s).db
  dispatch-Effects us s = dispatch-From s.db us s (stay s.db)

  -- What every effect keeps, every run of the bot keeps.
  pub Effects-keeps :
      (I : Db → Type 0)
      → ((d d' : Db) → Effect b d d' → I d → I d')
      → (d d' : Db) → Effects b d d'
      → I d
      → I d'
  Effects-keeps I h d _ (stay _) i = i
  Effects-keeps I h d _ (step _ d' d'' es e) i = h d' d'' e (Effects-keeps I h d d' es i)
