-- ===== src/Bot/Effects/Alert.antt =====
-- dialogues.rs: the handlers of the alert flow do only what the bot may do to the rows.
use poly_notifier.Common.{
  ℕ, zero, suc, ℤ, String, ◌==◌, string_eq, Bool, true, false, Option, none, some, List, [], ◌∷◌,
}
use poly_notifier.Store.Rows.{SubscriptionDetail}
use poly_notifier.Store.World.{Db, select}
use poly_notifier.Store.Triples.{Triple-bind, Triple-weaken, Triple-before, Triple-select}
use poly_notifier.Store.Users.{get_or_create_user}
use poly_notifier.Store.Subscriptions.{get_user_subscriptions}
use poly_notifier.Bot.State.{Sender, Message, CallbackQuery, BotDeps, in_world}
use poly_notifier.Bot.Dialogues.Alert.{
  offer_subscriptions, alert_of_sender, handle_alert_start, found_question, subscription_tapped,
  handle_alert_subscription_selection, handle_alert_type_selection, Change, insert_alert,
  change_alert, write_alert, alert_sender, handle_alert_threshold,
}
use poly_notifier.Bot.Effects.{
  realert, IsPercentage, Triple-in_world, From, Triple-effect, get_or_create_user-From,
}
use poly_notifier.Bot.Effects.Dialogues.{
  Triple-say, Triple-say_with, Triple-update, Triple-answer, Stays, done, attempt-Stays,
  ask_threshold-Stays,
}
use poly_notifier.Bot.Effects.Thresholds.{
  insert_alert-effect, with_percentage-Stays, with_sender-Stays,
}

module _ (b : BotDeps) (d₀ : Db) where
  abbrev F : Db → Type 0
  F = From b d₀

  -- A read that stays.
  pub read-Stays : {A : Type 0} (q : Db → A) → Stays b d₀ (in_world (select q))
  read-Stays q = Triple-weaken (λ a d p. p.0) (λ d p. p) (Triple-in_world (Triple-select F q))

  pub user-Stays :
      (telegram_id : ℤ) (username : Option String)
      → Stays b d₀ (in_world (get_or_create_user telegram_id b.bot_id username))
  user-Stays telegram_id username =
      Triple-weaken (λ u d p. p.0) (λ d p. p)
        (Triple-in_world (get_or_create_user-From b d₀ telegram_id username))

  offer_subscriptions-Stays :
      (chat : ℤ) (subs : List SubscriptionDetail) → Stays b d₀ (offer_subscriptions b chat subs)
  unfolding offer_subscriptions
  offer_subscriptions-Stays chat [] = Triple-say b F chat _
  offer_subscriptions-Stays chat (s ∷ subs) =
      Triple-bind (Triple-say_with b F chat _ _) λ a. Triple-update b F chat _

  pub handle_alert_start-Stays : (msg : Message) → Stays b d₀ (handle_alert_start b msg)
  unfolding handle_alert_start alert_of_sender get_user_subscriptions
  handle_alert_start-Stays msg = with_sender-Stays b d₀ msg.from _ λ sender.
      Triple-bind (user-Stays _ none)
        λ user. Triple-bind (read-Stays _) λ subs. offer_subscriptions-Stays msg.chat_id subs

  found_question-Stays :
      (key chat id : ℤ) (o : Option String) → Stays b d₀ (found_question b key chat id o)
  unfolding found_question
  found_question-Stays key chat id none =
      Triple-bind (Triple-say b F chat _) λ a. Triple-update b F key _
  found_question-Stays key chat id (some q) =
      Triple-bind (Triple-say_with b F chat _ _) λ a. Triple-update b F key _

  subscription_tapped-Stays :
      (key : ℤ) (chat o : Option ℤ) → Stays b d₀ (subscription_tapped b key chat o)
  unfolding subscription_tapped
  subscription_tapped-Stays key chat none = done b d₀
  subscription_tapped-Stays key none (some id) = done b d₀
  subscription_tapped-Stays key (some chat) (some id) =
      Triple-bind (read-Stays _) λ row. found_question-Stays key chat id row

  pub handle_alert_subscription_selection-Stays :
      (key : ℤ) (q : CallbackQuery) → Stays b d₀ (handle_alert_subscription_selection b key q)
  unfolding handle_alert_subscription_selection
  handle_alert_subscription_selection-Stays key q =
      Triple-bind (Triple-answer b F) λ a. subscription_tapped-Stays key q.chat _

  pub handle_alert_type_selection-Stays :
      (key : ℤ) (q : CallbackQuery) (id : ℤ) (question : String)
      → Stays b d₀ (handle_alert_type_selection b key q id question)
  unfolding handle_alert_type_selection
  handle_alert_type_selection-Stays key q id question =
      Triple-bind (Triple-answer b F) λ a. ask_threshold-Stays b d₀ key q.chat _ _

  insert_alert-Stays : (c : Change b) → IsPercentage b c.pct → Stays b d₀ (insert_alert b c)
  unfolding insert_alert
  insert_alert-Stays c h =
      Triple-bind
        (attempt-Stays b d₀ (insert_alert-effect b d₀ c.subscription_id c.alert_type c.pct h))
        λ n. Triple-say b F c.chat _

  change_alert-Stays : (c : Change b) → IsPercentage b c.pct → Stays b d₀ (change_alert b c)
  unfolding change_alert
  change_alert-Stays c h =
      Triple-bind
        (attempt-Stays b d₀ (
          Triple-in_world (
            Triple-before (λ d p. (p, tt {0}))
              (Triple-effect b d₀ (λ d. Unit) _
                λ at n d d' g e. realert c.subscription_id c.alert_type c.pct n d d' h e))))
        λ n. Triple-say b F c.chat _

  write_alert-Stays :
      (c : Change b) (free : Bool) (n : ℕ)
      → IsPercentage b c.pct
      → Stays b d₀ (write_alert b c free n)
  unfolding write_alert
  write_alert-Stays c true (suc n) h = change_alert-Stays c h
  write_alert-Stays c true zero h = insert_alert-Stays c h
  write_alert-Stays c false n h = insert_alert-Stays c h

  alert_sender-Stays :
      (c : Change b) (sender : Sender) → IsPercentage b c.pct → Stays b d₀ (alert_sender b c sender)
  unfolding alert_sender
  alert_sender-Stays c sender h = Triple-bind (user-Stays _ none) λ user.
      Triple-bind (read-Stays _) λ n.
        Triple-bind (write_alert-Stays c (user.tier == "free") n h) λ a. Triple-update b F c.chat _

  pub handle_alert_threshold-Stays :
      (msg : Message) (id : ℤ) (question t : String)
      → Stays b d₀ (handle_alert_threshold b msg id question t)
  unfolding handle_alert_threshold
  handle_alert_threshold-Stays msg id question t =
      with_percentage-Stays b d₀ msg.chat_id msg.text _ λ pct h.
        with_sender-Stays b d₀ msg.from _ λ sender.
          alert_sender-Stays
            (record {
              chat = msg.chat_id;
              subscription_id = id;
              question = question;
              alert_type = t;
              pct = pct;
            })
            sender h
