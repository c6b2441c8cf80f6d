-- ===== src/Bot/Dialogues/Alert.antt =====
-- crates/pn-bot/src/dialogues.rs, the alert flow: subscription, alert type, threshold.
use poly_notifier.Common.{
  ℕ, zero, suc, ℤ, String, ◌==◌, string_eq, ◌<>◌, Bool, true, false, Option, none, some, List, [],
  ◌∷◌, map, length,
}
use poly_notifier.Common.Int.{as_i64}
use poly_notifier.Common.Numerals.{show_ℤ}
use poly_notifier.Store.Rows.{F64, SubscriptionDetail, Result, ok, err}
use poly_notifier.Store.World.{Exec, pure, attempt, ◌>>=◌, ◌>>◌, select, statement}
use poly_notifier.Store.Users.{get_or_create_user}
use poly_notifier.Store.Subscriptions.{get_user_subscriptions}
use poly_notifier.Store.Alerts.{alerts_of}
use poly_notifier.Bot.State.{
  idle, awaiting_alert_subscription, awaiting_alert_type, awaiting_alert_threshold, Sender, Message,
  CallbackQuery, BotDeps, Session, update_dialogue, in_world, say, say_with, answer_callback_query,
}
use poly_notifier.Bot.Keyboards.{subscription_list_keyboard, alert_type_keyboard}
use poly_notifier.Bot.Rows.{insert_alert_row, change_oldest_alert, question_of}
use poly_notifier.Bot.Dialogues.{
  tapped_id, tapped_alert_type, parsed, with_percentage, with_sender, ask_threshold, threshold_of,
}

-- The entries of a keyboard of subscriptions.
unfoldable pub subscription_items : List SubscriptionDetail → List (ℤ × String)
unfolding show_ℤ
subscription_items subs =
    map (λ d. (d.subscription_id, d.question <> (" (outcome " <> (show_ℤ d.outcome_index <> ")"))))
      subs

module _ (b : BotDeps) where
  unfoldable pub offer_subscriptions : ℤ → List SubscriptionDetail → Exec Session (Unit {0})
  unfolding update_dialogue subscription_items subscription_list_keyboard
  offer_subscriptions chat [] = say b chat "You have no active subscriptions. Use /subscribe first."
  offer_subscriptions chat (d ∷ subs) = do
    say_with b chat "Select a subscription to set an alert on:"
        (subscription_list_keyboard (subscription_items (d ∷ subs)))
    update_dialogue chat awaiting_alert_subscription

  unfoldable pub alert_of_sender : ℤ → Sender → Exec Session (Unit {0})
  unfolding offer_subscriptions get_or_create_user get_user_subscriptions
  alert_of_sender chat sender = do
    user ← in_world (get_or_create_user (as_i64 sender.id) b.bot_id none)
    subs ← in_world (get_user_subscriptions user.id)
    offer_subscriptions chat subs

  unfoldable pub handle_alert_start : Message → Exec Session (Unit {0})
  unfolding alert_of_sender
  handle_alert_start msg = with_sender b msg.from (alert_of_sender msg.chat_id)

  -- The question of the subscription's market, if there is one.
  unfoldable pub found_question : ℤ → ℤ → ℤ → Option String → Exec Session (Unit {0})
  unfolding update_dialogue alert_type_keyboard
  found_question key chat sub_id none = do
    say b chat "Subscription not found. Please try /alert again."
    update_dialogue key idle
  found_question key chat sub_id (some question) = do
    say_with b chat ("Market: " <> (question <> "\n\nSelect alert type:")) alert_type_keyboard
    update_dialogue key (awaiting_alert_type sub_id question)

  unfoldable pub subscription_tapped : ℤ → Option ℤ → Option ℤ → Exec Session (Unit {0})
  unfolding found_question
  subscription_tapped key chat none = pure tt
  subscription_tapped key none (some sub_id) = pure tt
  subscription_tapped key (some chat) (some sub_id) = do
    row ← in_world (select (question_of sub_id))
    found_question key chat sub_id row

  unfoldable pub handle_alert_subscription_selection : ℤ → CallbackQuery → Exec Session (Unit {0})
  unfolding subscription_tapped tapped_id
  handle_alert_subscription_selection key q = do
    answer_callback_query
    subscription_tapped key q.chat (parsed (tapped_id "sub:") q.data_text)

  unfoldable pub handle_alert_type_selection :
      ℤ → CallbackQuery → ℤ → String → Exec Session (Unit {0})
  unfolding ask_threshold tapped_alert_type
  handle_alert_type_selection key q subscription_id question = do
    answer_callback_query
    ask_threshold b key q.chat (awaiting_alert_threshold subscription_id question)
        (parsed tapped_alert_type q.data_text)

  -- What the flow has gathered when the percentage comes.
  pub record Change : Type 0 where
    pub chat : ℤ
    pub subscription_id : ℤ
    pub question : String
    pub alert_type : String
    pub pct : F64

  abbrev summary : String → Change → String
  summary title c =
      title
      <> ("\nMarket: "
          <> (c.question
              <> ("\nType: "
                  <> (c.alert_type <> ("\nThreshold: " <> (b.float.show_whole c.pct <> "%"))))))

  insert_answer : Change → Result ℕ → String
  insert_answer c (ok n) = summary "Alert created!" c
  insert_answer c (err e) = "Failed to create alert. Please try again."

  change_answer : Change → Result ℕ → String
  change_answer c (ok n) = summary "Alert updated!" c
  change_answer c (err e) = "Failed to update alert. Please try again."

  unfoldable pub insert_alert : Change → Exec Session (Unit {0})
  unfolding insert_answer insert_alert_row
  insert_alert c = do
    inserted ← attempt (
        in_world
          (statement (insert_alert_row c.subscription_id c.alert_type (threshold_of b c.pct))))
    say b c.chat (insert_answer c inserted)

  unfoldable pub change_alert : Change → Exec Session (Unit {0})
  unfolding change_answer change_oldest_alert
  change_alert c = do
    changed ← attempt (
        in_world (
          statement
            (λ _. change_oldest_alert c.subscription_id c.alert_type (threshold_of b c.pct))))
    say b c.chat (change_answer c changed)

  -- The free tier keeps one alert for a subscription.
  unfoldable pub write_alert : Change → Bool → ℕ → Exec Session (Unit {0})
  unfolding insert_alert change_alert
  write_alert c true (suc n) = change_alert c
  write_alert c true zero = insert_alert c
  write_alert c false n = insert_alert c

  unfoldable pub alert_sender : Change → Sender → Exec Session (Unit {0})
  unfolding write_alert get_or_create_user update_dialogue
  alert_sender c sender = do
    user ← in_world (get_or_create_user (as_i64 sender.id) b.bot_id none)
    alert_count ← in_world (select (λ d. length (alerts_of c.subscription_id d)))
    write_alert c (user.tier == "free") alert_count
    update_dialogue c.chat idle

  unfoldable pub handle_alert_threshold : Message → ℤ → String → String → Exec Session (Unit {0})
  unfolding with_percentage alert_sender
  handle_alert_threshold msg subscription_id question alert_type =
      with_percentage b msg.chat_id msg.text λ pct. with_sender b msg.from (
        alert_sender record {
          chat = msg.chat_id;
          subscription_id = subscription_id;
          question = question;
          alert_type = alert_type;
          pct = pct;
        })
