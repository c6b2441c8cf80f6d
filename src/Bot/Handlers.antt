-- ===== src/Bot/Handlers.antt =====
-- crates/pn-bot/src/handlers.rs: the commands, and the removal of a subscription.
pub mod Lists
use Prim.Native.Char.{Char, code}
use Prim.Native.String.{len}
use poly_notifier.Common.{
  ℕ, zero, suc, ◌+◌, ◌-◌, ◌*◌, ◌/◌, ℤ, pos, String, ◌==◌, string_eq, ◌<>◌, Bool, true, false, ◌||◌,
  Option, none, some, List, [], ◌∷◌, if◌then◌else◌, ltb, leb, nat_beq,
}
use poly_notifier.Common.Int.{as_i64}
use poly_notifier.Common.Texts.{trim, strip_prefix, any_char}
use poly_notifier.Common.Numerals.{show_ℕ, show_ℤ}
use poly_notifier.Store.Rows.{User, Result, ok, err, SubscriptionDetail}
use poly_notifier.Store.World.{Exec, pure, attempt, ◌>>=◌, ◌>>◌, now, execute}
use poly_notifier.Store.Users.{get_or_create_user}
use poly_notifier.Store.Subscriptions.{count_active_subscriptions, get_user_subscriptions}
use poly_notifier.Store.Logs.{insert_feedback, get_last_feedback_time}
use poly_notifier.Bot.State.{
  Sender, Message, CallbackQuery, BotDeps, Session, in_world, say, say_with, answer_callback_query,
}
use poly_notifier.Bot.Keyboards.{unsubscribe_keyboard}
use poly_notifier.Bot.Rows.{delete_subscription, set_timezone}
use poly_notifier.Bot.Dialogues.{with_sender}
use poly_notifier.Bot.Dialogues.Subscribe.{handle_subscribe_start}
use poly_notifier.Bot.Dialogues.Alert.{handle_alert_start, subscription_items}

abbrev greeting : String → String
greeting first_name = if first_name == "" then "Welcome" else "Welcome, " <> first_name

-- The characters ; ' " \
abbrev pub is_forbidden : Char → Bool
is_forbidden c =
    nat_beq (code c) 59 || (nat_beq (code c) 39 || (nat_beq (code c) 34 || nat_beq (code c) 92))

abbrev pub body_of : Option String → String
body_of none = ""
body_of (some rest) = trim rest

abbrev pub or_empty : Option String → String
or_empty none = ""
or_empty (some text) = text

-- An hour and a minute, in nanoseconds.
abbrev pub hour : ℕ
hour = 3_600_000_000_000

abbrev minute : ℕ
minute = 60_000_000_000

module _ (b : BotDeps) where
  unfoldable pub start_sender : ℤ → Sender → Exec Session (Unit {0})
  unfolding get_or_create_user count_active_subscriptions show_ℕ show_ℤ
  start_sender chat sender = do
    user ← in_world (get_or_create_user (as_i64 sender.id) b.bot_id sender.username)
    used ← in_world (count_active_subscriptions user.id)
    say b chat (
        greeting sender.first_name
        <> ("! I'm the Poly-Notifier bot.\n\nI can notify you about price movements on Polymarket.\n\nYour account:\nTier: "
            <> (user.tier
                <> ("\nSubscription slots: "
                    <> (show_ℕ used
                        <> ("/"
                            <> (show_ℤ user.max_subscriptions
                                <> "\n\nUse /help to see all commands.")))))))

  unfoldable pub start : Message → Exec Session (Unit {0})
  unfolding start_sender
  start msg = with_sender b msg.from (start_sender msg.chat_id)

  unfoldable pub help : Message → Exec Session (Unit {0})
  help msg = say b msg.chat_id b.descriptions

  unfoldable pub show_unsubscribe : ℤ → List SubscriptionDetail → Exec Session (Unit {0})
  unfolding unsubscribe_keyboard subscription_items
  show_unsubscribe chat [] = say b chat "You have no active subscriptions."
  show_unsubscribe chat (d ∷ subs) =
      say_with b chat "Select a subscription to remove:"
        (unsubscribe_keyboard (subscription_items (d ∷ subs)))

  unfoldable pub unsubscribe_sender : ℤ → Sender → Exec Session (Unit {0})
  unfolding show_unsubscribe get_or_create_user get_user_subscriptions
  unsubscribe_sender chat sender = do
    user ← in_world (get_or_create_user (as_i64 sender.id) b.bot_id none)
    subs ← in_world (get_user_subscriptions user.id)
    show_unsubscribe chat subs

  unfoldable pub unsubscribe : Message → Exec Session (Unit {0})
  unfolding unsubscribe_sender
  unsubscribe msg = with_sender b msg.from (unsubscribe_sender msg.chat_id)

  unfoldable pub set_zone : ℤ → String → Sender → Exec Session (Unit {0})
  unfolding get_or_create_user
  set_zone chat tz sender = do
    user ← in_world (get_or_create_user (as_i64 sender.id) b.bot_id none)
    at ← in_world now
    in_world (execute (set_timezone tz at user.id))
    say b chat ("Timezone updated to: " <> tz)

  unfoldable pub checked_zone : ℤ → String → Sender → Exec Session (Unit {0})
  unfolding set_zone
  checked_zone chat tz sender =
      if tz == ""
      then say b chat "Usage: /timezone America/New_York\nProvide a valid IANA timezone name."
      else if any_char is_forbidden tz
      then say b chat "Invalid timezone string."
      else set_zone chat tz sender

  unfoldable pub timezone : Message → String → Exec Session (Unit {0})
  unfolding checked_zone
  timezone msg tz_str = with_sender b msg.from (checked_zone msg.chat_id (trim tz_str))

  unfoldable pub removal_answer : Result ℕ → String
  removal_answer (ok zero) = "Subscription not found."
  removal_answer (ok (suc n)) = "Subscription and its alerts removed."
  removal_answer (err e) = "Failed to remove subscription."

  unfoldable pub remove : ℤ → Option ℤ → Exec Session (Unit {0})
  unfolding removal_answer delete_subscription
  remove sub_id none = pure tt
  remove sub_id (some chat) = do
    removed ← attempt (in_world (execute (delete_subscription sub_id)))
    say b chat (removal_answer removed)

  unfoldable pub callback_unsubscribe : CallbackQuery → ℤ → Exec Session (Unit {0})
  unfolding remove
  callback_unsubscribe q sub_id = do answer_callback_query; remove sub_id q.chat

  unfoldable pub store_feedback : ℤ → String → User → Exec Session (Unit {0})
  unfolding insert_feedback
  store_feedback chat body user = do
    in_world (insert_feedback user.id body)
    say b chat "Thank you for your feedback! 🙏"

  unfoldable pub timed_feedback : ℤ → String → User → ℕ → ℕ → Exec Session (Unit {0})
  unfolding store_feedback show_ℕ
  timed_feedback chat body user last at =
      if ltb at (last + hour)
      then say b chat (
          "You can submit feedback again in "
          <> (show_ℕ ((last + hour - at) / minute + 1) <> " minute(s)."))
      else store_feedback chat body user

  -- One feedback in an hour, by the time of the last.
  unfoldable pub limited_feedback : ℤ → String → User → Option ℕ → Exec Session (Unit {0})
  unfolding store_feedback timed_feedback
  limited_feedback chat body user none = store_feedback chat body user
  limited_feedback chat body user (some last) = do
    at ← in_world now
    timed_feedback chat body user last at

  unfoldable pub feedback_sender : ℤ → String → Sender → Exec Session (Unit {0})
  unfolding limited_feedback get_or_create_user get_last_feedback_time
  feedback_sender chat body sender =
      if body == ""
      then say b chat
          "Usage: /feedback <your message>\n\nExample: /feedback I'd love to see Bitcoin markets!"
      else if ltb 1000 (len body)
      then say b chat "Feedback is too long. Please keep it under 1000 characters."
      else do
        user ← in_world (get_or_create_user (as_i64 sender.id) b.bot_id none)
        last ← in_world (get_last_feedback_time user.id)
        limited_feedback chat body user last

  unfoldable pub feedback : Message → Exec Session (Unit {0})
  unfolding feedback_sender
  feedback msg =
      with_sender b msg.from
        (feedback_sender msg.chat_id (body_of (strip_prefix "/feedback" (or_empty msg.text))))

  unfoldable pub subscribe : Message → Exec Session (Unit {0})
  unfolding handle_subscribe_start
  subscribe msg = handle_subscribe_start b msg

  unfoldable pub alert : Message → Exec Session (Unit {0})
  unfolding handle_alert_start
  alert msg = handle_alert_start b msg
