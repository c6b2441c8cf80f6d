-- ===== src/Bot/Moves/Thresholds.antt =====
-- dialogues.rs: the alert flow and the handlers that take a percentage take the steps of the graph.
use poly_notifier.Common.{
  ℕ, zero, suc, ℤ, leb_ℤ, pos, String, ◌==◌, string_eq, ◌≡◌, refl, Bool, true, false, Option, none,
  some, List, [], ◌∷◌, Bool-cases, inl, inr,
}
use poly_notifier.Common.Texts.{trim}
use poly_notifier.Store.Rows.{F64, User, Subscription, SubscriptionDetail, Result, ok, err}
use poly_notifier.Store.World.{Exec, pure}
use poly_notifier.Store.Triples.{Triple-bind}
use poly_notifier.Bot.State
use poly_notifier.Bot.State.{
  message, callback_query, awaiting_alert_type, DialogueState, Update, MarketOption, idle,
  awaiting_subscribe_alert_threshold, awaiting_alert_subscription, awaiting_alert_threshold, Sender,
  Message, CallbackQuery, Update, BotDeps, Session,
}
use poly_notifier.Bot.Dialogues.{
  Percentage, valid, out_of_range, invalid, percentage_of, with_percentage, read_percentage,
  with_sender,
}
use poly_notifier.Bot.Dialogues.Subscribe.{
  Wish, finish, first_alert, inserted_subscription, create_subscription, within_quota,
  subscribe_sender, handle_subscribe_alert_threshold,
}
use poly_notifier.Bot.Dialogues.Alert.{
  offer_subscriptions, alert_of_sender, handle_alert_start, found_question, subscription_tapped,
  handle_alert_subscription_selection, Change, insert_alert, change_alert, write_alert,
  alert_sender, handle_alert_threshold,
}
use poly_notifier.Bot.Moves.{
  TappedIn, Edge, begin_alert, subscribe_done, subscription_chosen, subscription_missed, alert_done,
  Dialogues, state_in, Quiet, Moves, quietly, pure-Quiet, attempt-Quiet, Quiet-Moves,
  say_with-Quiet, moving,
}

module _ (b : BotDeps) (u : Update) (ds : Dialogues) where
  still : {A : Type 0} (a : A) → Moves b u ds (pure a)
  still a = Quiet-Moves b u ds (pure-Quiet b u ds a)

  finish-Moves :
      (chat : ℤ) (text : String)
      → Edge b chat u (state_in chat ds) idle
      → Moves b u ds (finish b chat text)
  unfolding finish
  finish-Moves chat text e = Triple-bind (quietly b u ds _) λ a. moving b u ds chat idle e

  first_alert-Moves :
      (r : Wish b) (o : Option Subscription)
      → Edge b r.chat u (state_in r.chat ds) idle
      → Moves b u ds (first_alert b r o)
  unfolding first_alert
  first_alert-Moves r none e = finish-Moves r.chat _ e
  first_alert-Moves r (some s) e = Triple-bind (attempt-Quiet b u ds _) λ n. finish-Moves r.chat _ e

  inserted_subscription-Moves :
      (r : Wish b) (user_id market_id : ℤ) (n : Result ℕ)
      → Edge b r.chat u (state_in r.chat ds) idle
      → Moves b u ds (inserted_subscription b r user_id market_id n)
  unfolding inserted_subscription
  inserted_subscription-Moves r user_id market_id (err x) e = finish-Moves r.chat _ e
  inserted_subscription-Moves r user_id market_id (ok zero) e = finish-Moves r.chat _ e
  inserted_subscription-Moves r user_id market_id (ok (suc n)) e =
      Triple-bind (quietly b u ds _) λ o. first_alert-Moves r o e

  within_quota-Moves :
      (r : Wish b) (user : User) (n : ℕ)
      → Edge b r.chat u (state_in r.chat ds) idle
      → Moves b u ds (within_quota b r user n)
  unfolding within_quota create_subscription
  within_quota-Moves r user n e = elim (Bool-cases (leb_ℤ user.max_subscriptions (pos n))) [
    | inl full ↦ rw full (finish-Moves r.chat _ e)
    | inr free ↦ rw free (
        Triple-bind (quietly b u ds _) λ market_id.
          Triple-bind (attempt-Quiet b u ds _)
            λ inserted. inserted_subscription-Moves r user.id market_id inserted e)
  ]

  subscribe_sender-Moves :
      (r : Wish b) (sender : Sender)
      → Edge b r.chat u (state_in r.chat ds) idle
      → Moves b u ds (subscribe_sender b r sender)
  unfolding subscribe_sender
  subscribe_sender-Moves r sender e =
      Triple-bind (quietly b u ds _)
        λ user. Triple-bind (quietly b u ds _) λ n. within_quota-Moves r user n e

  percentage_of-Moves :
      (chat : ℤ) (f : F64 → Exec Session (Unit {0})) (x : Percentage)
      → ((pct : F64) → x ≡ valid pct → Moves b u ds (f pct))
      → Moves b u ds (percentage_of b chat f x)
  unfolding percentage_of
  percentage_of-Moves chat f (valid pct) h = h pct refl
  percentage_of-Moves chat f out_of_range h = Quiet-Moves b u ds (quietly b u ds _)
  percentage_of-Moves chat f invalid h = Quiet-Moves b u ds (quietly b u ds _)

  with_percentage-Moves :
      (chat : ℤ) (o : Option String) (f : F64 → Exec Session (Unit {0}))
      → ((text : String) (pct : F64)
          → o ≡ some text
          → read_percentage b.float (trim text) ≡ valid pct
          → Moves b u ds (f pct))
      → Moves b u ds (with_percentage b chat o f)
  unfolding with_percentage
  with_percentage-Moves chat none f h = Quiet-Moves b u ds (quietly b u ds _)
  with_percentage-Moves chat (some text) f h =
      percentage_of-Moves chat f (read_percentage b.float (trim text)) (λ pct. h text pct refl)

  pub with_sender-Moves :
      (o : Option Sender) (f : Sender → Exec Session (Unit {0}))
      → ((sender : Sender) → Moves b u ds (f sender))
      → Moves b u ds (with_sender b o f)
  with_sender-Moves none f h = still tt
  with_sender-Moves (some sender) f h = h sender

  offer_subscriptions-Moves :
      (chat : ℤ) (subs : List SubscriptionDetail)
      → Edge b chat u (state_in chat ds) awaiting_alert_subscription
      → Moves b u ds (offer_subscriptions b chat subs)
  unfolding offer_subscriptions
  offer_subscriptions-Moves chat [] e = Quiet-Moves b u ds (quietly b u ds _)
  offer_subscriptions-Moves chat (s ∷ subs) e =
      Triple-bind (say_with-Quiet b u ds chat _ _) λ a. moving b u ds chat _ e

  found_question-Moves :
      (key chat id : ℤ) (o : Option String)
      → ((q : String) → Edge b key u (state_in key ds) (awaiting_alert_type id q))
      → Edge b key u (state_in key ds) idle
      → Moves b u ds (found_question b key chat id o)
  unfolding found_question
  found_question-Moves key chat id none hit miss =
      Triple-bind (quietly b u ds _) λ a. moving b u ds key idle miss
  found_question-Moves key chat id (some q) hit miss =
      Triple-bind (say_with-Quiet b u ds chat _ _) λ a. moving b u ds key _ (hit q)

  subscription_tapped-Moves :
      (key : ℤ) (chat o : Option ℤ)
      → ((id : ℤ) (q : String)
          → o ≡ some id
          → Edge b key u (state_in key ds) (awaiting_alert_type id q))
      → ((id : ℤ) → o ≡ some id → Edge b key u (state_in key ds) idle)
      → Moves b u ds (subscription_tapped b key chat o)
  unfolding subscription_tapped
  subscription_tapped-Moves key chat none hit miss = still tt
  subscription_tapped-Moves key none (some id) hit miss = still tt
  subscription_tapped-Moves key (some chat) (some id) hit miss =
      Triple-bind (quietly b u ds _)
        λ row. found_question-Moves key chat id row (λ q. hit id q refl) (miss id refl)

  write_alert-Quiet : (c : Change b) (free : Bool) (n : ℕ) → Quiet b u ds (write_alert b c free n)
  unfolding write_alert insert_alert change_alert
  write_alert-Quiet c true (suc n) = Triple-bind (attempt-Quiet b u ds _) λ n. quietly b u ds _
  write_alert-Quiet c true zero = Triple-bind (attempt-Quiet b u ds _) λ n. quietly b u ds _
  write_alert-Quiet c false n = Triple-bind (attempt-Quiet b u ds _) λ n. quietly b u ds _

  alert_sender-Moves :
      (c : Change b) (sender : Sender)
      → Edge b c.chat u (state_in c.chat ds) idle
      → Moves b u ds (alert_sender b c sender)
  unfolding alert_sender
  alert_sender-Moves c sender e = Triple-bind (quietly b u ds _) λ user.
      Triple-bind (quietly b u ds _) λ n.
        Triple-bind (write_alert-Quiet c (user.tier == "free") n) λ a. moving b u ds c.chat idle e

module _ (b : BotDeps) (ds : Dialogues) where
  module _ (msg : Message) (plain : b.parse_command msg ≡ none) where
    pub handle_subscribe_alert_threshold-Moves :
        (m : MarketOption) (i : ℤ) (t : String)
        → state_in msg.chat_id ds ≡ awaiting_subscribe_alert_threshold m i t
        → Moves b (message msg) ds (handle_subscribe_alert_threshold b msg m i t)
    unfolding handle_subscribe_alert_threshold
    handle_subscribe_alert_threshold-Moves m i t e =
        with_percentage-Moves b (message msg) ds msg.chat_id msg.text _ λ text pct said right.
          with_sender-Moves b (message msg) ds msg.from _ λ sender.
            subscribe_sender-Moves b (message msg) ds
              (record {
                chat = msg.chat_id;
                market = m;
                outcome_index = i;
                alert_type = t;
                pct = pct;
              })
              sender (rw e (subscribe_done msg m i t (refl, plain) (text, pct, said, right)))

    pub handle_alert_threshold-Moves :
        (id : ℤ) (question t : String)
        → state_in msg.chat_id ds ≡ awaiting_alert_threshold id question t
        → Moves b (message msg) ds (handle_alert_threshold b msg id question t)
    unfolding handle_alert_threshold
    handle_alert_threshold-Moves id question t e =
        with_percentage-Moves b (message msg) ds msg.chat_id msg.text _ λ text pct said right.
          with_sender-Moves b (message msg) ds msg.from _ λ sender.
            alert_sender-Moves b (message msg) ds
              (record {
                chat = msg.chat_id;
                subscription_id = id;
                question = question;
                alert_type = t;
                pct = pct;
              })
              sender (rw e (alert_done msg id question t (refl, plain) (text, pct, said, right)))

  pub handle_alert_start-Moves :
      (msg : Message)
      → b.parse_command msg ≡ some State.alert
      → Moves b (message msg) ds (handle_alert_start b msg)
  unfolding handle_alert_start alert_of_sender
  handle_alert_start-Moves msg command = with_sender-Moves b (message msg) ds msg.from _ λ sender.
      Triple-bind (quietly b (message msg) ds _) λ user.
        Triple-bind (quietly b (message msg) ds _) λ subs.
          offer_subscriptions-Moves b (message msg) ds msg.chat_id subs
            (begin_alert msg _ (refl, command))

  pub handle_alert_subscription_selection-Moves :
      (key : ℤ) (q : CallbackQuery)
      → TappedIn key q
      → state_in key ds ≡ awaiting_alert_subscription
      → Moves b (callback_query q) ds (handle_alert_subscription_selection b key q)
  unfolding handle_alert_subscription_selection
  handle_alert_subscription_selection-Moves key q tap e =
      Triple-bind (quietly b (callback_query q) ds _) λ a.
        subscription_tapped-Moves b (callback_query q) ds key q.chat _
          (λ id question chosen. rw e (subscription_chosen q id question tap chosen))
          (λ id chosen. rw e (subscription_missed q id tap chosen))
