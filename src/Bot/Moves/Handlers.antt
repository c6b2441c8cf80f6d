-- ===== src/Bot/Moves/Handlers.antt =====
-- handlers.rs: the commands other than /subscribe and /alert leave every conversation where it is.
use Prim.Native.String.{len}
use poly_notifier.Common.{
  ℕ, suc, ◌+◌, ℤ, String, ◌==◌, string_eq, Option, none, some, List, [], ◌∷◌, Bool-cases, inl, inr,
  ltb,
}
use poly_notifier.Common.Texts.{trim, any_char, strip_prefix}
use poly_notifier.Store.Rows.{User, SubscriptionDetail}
use poly_notifier.Store.World.{Exec}
use poly_notifier.Store.Triples.{Triple-bind}
use poly_notifier.Bot.State.{Sender, Message, CallbackQuery, Update, BotDeps, Session}
use poly_notifier.Bot.Handlers.{
  start, start_sender, help, show_unsubscribe, unsubscribe_sender, unsubscribe, set_zone,
  checked_zone, timezone, remove, callback_unsubscribe, store_feedback, timed_feedback,
  limited_feedback, feedback_sender, feedback, is_forbidden, hour, or_empty, body_of,
}
use poly_notifier.Bot.Handlers.Lists.{
  outcome_names, list_entry, entries, show_list, list_sender, list, price_entry, prices_entry,
  show_prices, prices_sender, prices,
}
use poly_notifier.Bot.Dialogues.{outcome_label, with_sender}
use poly_notifier.Bot.Moves.{Dialogues, Quiet, quietly, pure-Quiet, attempt-Quiet, say_with-Quiet}

module _ (b : BotDeps) (u : Update) (ds : Dialogues) where
  with_sender-Quiet :
      (o : Option Sender) (f : Sender → Exec Session (Unit {0}))
      → ((sender : Sender) → Quiet b u ds (f sender))
      → Quiet b u ds (with_sender b o f)
  with_sender-Quiet none f h = pure-Quiet b u ds tt
  with_sender-Quiet (some sender) f h = h sender

  pub start-Quiet : (msg : Message) → Quiet b u ds (start b msg)
  unfolding start start_sender
  start-Quiet msg = with_sender-Quiet msg.from _ λ sender.
      Triple-bind (quietly b u ds _) λ user. Triple-bind (quietly b u ds _) λ used. quietly b u ds _

  pub help-Quiet : (msg : Message) → Quiet b u ds (help b msg)
  unfolding help
  help-Quiet msg = quietly b u ds _

  show_unsubscribe-Quiet :
      (chat : ℤ) (subs : List SubscriptionDetail) → Quiet b u ds (show_unsubscribe b chat subs)
  unfolding show_unsubscribe
  show_unsubscribe-Quiet chat [] = quietly b u ds _
  show_unsubscribe-Quiet chat (s ∷ subs) = say_with-Quiet b u ds chat _ _

  pub unsubscribe-Quiet : (msg : Message) → Quiet b u ds (unsubscribe b msg)
  unfolding unsubscribe unsubscribe_sender
  unsubscribe-Quiet msg = with_sender-Quiet msg.from _ λ sender.
      Triple-bind (quietly b u ds _)
        λ user. Triple-bind (quietly b u ds _) λ subs. show_unsubscribe-Quiet msg.chat_id subs

  checked_zone-Quiet :
      (chat : ℤ) (tz : String) (sender : Sender) → Quiet b u ds (checked_zone b chat tz sender)
  unfolding checked_zone set_zone
  checked_zone-Quiet chat tz sender = elim (Bool-cases (tz == "")) [
    | inl empty ↦ rw empty (quietly b u ds _)
    | inr full ↦ elim (Bool-cases (any_char is_forbidden tz)) [
      | inl bad ↦ rw (full, bad) (quietly b u ds _)
      | inr clean ↦
          rw (full, clean)
            (Triple-bind (quietly b u ds _) λ user.
              Triple-bind (quietly b u ds _)
                λ at. Triple-bind (quietly b u ds _) λ n. quietly b u ds _)
    ]
  ]

  pub timezone-Quiet : (msg : Message) (tz : String) → Quiet b u ds (timezone b msg tz)
  unfolding timezone
  timezone-Quiet msg tz =
      with_sender-Quiet msg.from _ λ sender. checked_zone-Quiet msg.chat_id (trim tz) sender

  remove-Quiet : (id : ℤ) (o : Option ℤ) → Quiet b u ds (remove b id o)
  unfolding remove
  remove-Quiet id none = pure-Quiet b u ds tt
  remove-Quiet id (some chat) = Triple-bind (attempt-Quiet b u ds _) λ n. quietly b u ds _

  pub callback_unsubscribe-Quiet :
      (q : CallbackQuery) (id : ℤ) → Quiet b u ds (callback_unsubscribe b q id)
  unfolding callback_unsubscribe
  callback_unsubscribe-Quiet q id = Triple-bind (quietly b u ds _) λ a. remove-Quiet id q.chat

  store_feedback-Quiet :
      (chat : ℤ) (body : String) (user : User) → Quiet b u ds (store_feedback b chat body user)
  unfolding store_feedback
  store_feedback-Quiet chat body user = Triple-bind (quietly b u ds _) λ id. quietly b u ds _

  timed_feedback-Quiet :
      (chat : ℤ) (body : String) (user : User) (last at : ℕ)
      → Quiet b u ds (timed_feedback b chat body user last at)
  unfolding timed_feedback
  timed_feedback-Quiet chat body user last at = elim (Bool-cases (ltb at (last + hour))) [
    | inl early ↦ rw early (quietly b u ds _)
    | inr late ↦ rw late (store_feedback-Quiet chat body user)
  ]

  limited_feedback-Quiet :
      (chat : ℤ) (body : String) (user : User) (o : Option ℕ)
      → Quiet b u ds (limited_feedback b chat body user o)
  unfolding limited_feedback
  limited_feedback-Quiet chat body user none = store_feedback-Quiet chat body user
  limited_feedback-Quiet chat body user (some last) =
      Triple-bind (quietly b u ds _) λ at. timed_feedback-Quiet chat body user last at

  feedback_sender-Quiet :
      (chat : ℤ) (body : String) (sender : Sender)
      → Quiet b u ds (feedback_sender b chat body sender)
  unfolding feedback_sender
  feedback_sender-Quiet chat body sender = elim (Bool-cases (body == "")) [
    | inl empty ↦ rw empty (quietly b u ds _)
    | inr full ↦ elim (Bool-cases (ltb 1000 (len body))) [
      | inl long ↦ rw (full, long) (quietly b u ds _)
      | inr short ↦
          rw (full, short)
            (Triple-bind (quietly b u ds _) λ user.
              Triple-bind (quietly b u ds _) λ last. limited_feedback-Quiet chat body user last)
    ]
  ]

  pub feedback-Quiet : (msg : Message) → Quiet b u ds (feedback b msg)
  unfolding feedback
  feedback-Quiet msg = with_sender-Quiet msg.from _ λ sender.
      feedback_sender-Quiet msg.chat_id (body_of (strip_prefix "/feedback" (or_empty msg.text)))
        sender

  outcome_names-Quiet : (s : SubscriptionDetail) → Quiet b u ds (outcome_names b s)
  unfolding outcome_names
  outcome_names-Quiet s = Triple-bind (quietly b u ds _) λ row. pure-Quiet b u ds _

  list_entry-Quiet : (i : ℕ) (s : SubscriptionDetail) → Quiet b u ds (list_entry b i s)
  unfolding list_entry
  list_entry-Quiet i s =
      Triple-bind (outcome_names-Quiet s)
        λ names. Triple-bind (attempt-Quiet b u ds _) λ rows. pure-Quiet b u ds _

  entries-Quiet :
      (entry : ℕ → SubscriptionDetail → Exec Session (List String)) (i : ℕ)
      (subs : List SubscriptionDetail)
      → ((i : ℕ) (s : SubscriptionDetail) → Quiet b u ds (entry i s))
      → Quiet b u ds (entries b entry i subs)
  unfolding entries
  entries-Quiet entry i [] h = pure-Quiet b u ds _
  entries-Quiet entry i (s ∷ subs) h =
      Triple-bind (h i s)
        λ lines. Triple-bind (entries-Quiet entry (suc i) subs h) λ rest. pure-Quiet b u ds _

  show_list-Quiet :
      (chat : ℤ) (user : User) (subs : List SubscriptionDetail)
      → Quiet b u ds (show_list b chat user subs)
  unfolding show_list
  show_list-Quiet chat user [] = quietly b u ds _
  show_list-Quiet chat user (s ∷ subs) =
      Triple-bind (entries-Quiet _ 0 (s ∷ subs) list_entry-Quiet) λ lines. quietly b u ds _

  pub list-Quiet : (msg : Message) → Quiet b u ds (list b msg)
  unfolding list list_sender
  list-Quiet msg = with_sender-Quiet msg.from _ λ sender.
      Triple-bind (quietly b u ds _)
        λ user. Triple-bind (quietly b u ds _) λ subs. show_list-Quiet msg.chat_id user subs

  price_entry-Quiet :
      (i : ℕ) (s : SubscriptionDetail) (label : String) (o : Option String)
      → Quiet b u ds (price_entry b i s label o)
  unfolding price_entry
  price_entry-Quiet i s label none = pure-Quiet b u ds _
  price_entry-Quiet i s label (some token_id) =
      Triple-bind (attempt-Quiet b u ds _) λ found. pure-Quiet b u ds _

  prices_entry-Quiet : (i : ℕ) (s : SubscriptionDetail) → Quiet b u ds (prices_entry b i s)
  unfolding prices_entry
  prices_entry-Quiet i s =
      Triple-bind (outcome_names-Quiet s)
        λ names. price_entry-Quiet i s (outcome_label names s.outcome_index) _

  show_prices-Quiet :
      (chat : ℤ) (subs : List SubscriptionDetail) → Quiet b u ds (show_prices b chat subs)
  unfolding show_prices
  show_prices-Quiet chat [] = quietly b u ds _
  show_prices-Quiet chat (s ∷ subs) =
      Triple-bind (quietly b u ds _)
        λ a. Triple-bind (entries-Quiet _ 0 (s ∷ subs) prices_entry-Quiet) λ lines. quietly b u ds _

  pub prices-Quiet : (msg : Message) → Quiet b u ds (prices b msg)
  unfolding prices prices_sender
  prices-Quiet msg = with_sender-Quiet msg.from _ λ sender.
      Triple-bind (quietly b u ds _)
        λ user. Triple-bind (quietly b u ds _) λ subs. show_prices-Quiet msg.chat_id subs
