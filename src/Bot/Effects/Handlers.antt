-- ===== src/Bot/Effects/Handlers.antt =====
-- handlers.rs: the commands do only what the bot may do to the rows.
use poly_notifier.Common.{
  ℕ, suc, ◌+◌, ℤ, String, ◌==◌, string_eq, ◌≡◌, false, Option, none, some, List, [], ◌∷◌,
  Bool-cases, inl, inr, ltb,
}
use Prim.Native.String.{len}
use poly_notifier.Common.Texts.{trim, any_char, strip_prefix}
use poly_notifier.Store.Rows.{User, SubscriptionDetail}
use poly_notifier.Store.World.{Db, Exec, execute}
use poly_notifier.Store.Triples.{
  Leaves, Triple-pure, Triple-bind, Triple-weaken, Triple-statement, Triple-now, Triple-ask,
  Triple-select,
}
use poly_notifier.Store.Subscriptions.{count_active_subscriptions, get_user_subscriptions}
use poly_notifier.Store.Logs.{insert_feedback, insert_feedback_row, get_last_feedback_time}
use poly_notifier.Bot.State.{Sender, Message, CallbackQuery, BotDeps, Session, in_world}
use poly_notifier.Bot.Rows.{set_timezone}
use poly_notifier.Bot.Handlers.{
  start, start_sender, help, show_unsubscribe, unsubscribe_sender, unsubscribe, set_zone,
  checked_zone, timezone, remove, callback_unsubscribe, store_feedback, timed_feedback,
  limited_feedback, feedback_sender, feedback, is_forbidden, hour, or_empty, body_of,
}
use poly_notifier.Bot.Handlers.Lists.{
  outcome_names, list_entry, entries, show_list, list_sender, list, price_entry, prices_entry,
  show_prices, prices_sender, prices,
}
use poly_notifier.Bot.Dialogues.{outcome_label}
use poly_notifier.Bot.Effects
use poly_notifier.Bot.Effects.{
  rezone, comment, step, Effects, rows_of_session, Triple-in_world, From, effect-Leaves,
}
use poly_notifier.Bot.Effects.Dialogues.{
  Triple-say, Triple-say_with, Triple-answer, Stays, done, attempt-Stays,
}
use poly_notifier.Bot.Effects.Thresholds.{with_sender-Stays}
use poly_notifier.Bot.Effects.Alert.{read-Stays, user-Stays}

module _ (b : BotDeps) (d₀ : Db) where
  abbrev F : Db → Type 0
  F = From b d₀

  pub start-Stays : (msg : Message) → Stays b d₀ (start b msg)
  unfolding start start_sender count_active_subscriptions
  start-Stays msg = with_sender-Stays b d₀ msg.from _ λ sender.
      Triple-bind (user-Stays b d₀ _ sender.username)
        λ user. Triple-bind (read-Stays b d₀ _) λ used. Triple-say b F msg.chat_id _

  pub help-Stays : (msg : Message) → Stays b d₀ (help b msg)
  unfolding help
  help-Stays msg = Triple-say b F msg.chat_id _

  show_unsubscribe-Stays :
      (chat : ℤ) (subs : List SubscriptionDetail) → Stays b d₀ (show_unsubscribe b chat subs)
  unfolding show_unsubscribe
  show_unsubscribe-Stays chat [] = Triple-say b F chat _
  show_unsubscribe-Stays chat (s ∷ subs) = Triple-say_with b F chat _ _

  pub unsubscribe-Stays : (msg : Message) → Stays b d₀ (unsubscribe b msg)
  unfolding unsubscribe unsubscribe_sender get_user_subscriptions
  unsubscribe-Stays msg = with_sender-Stays b d₀ msg.from _ λ sender.
      Triple-bind (user-Stays b d₀ _ none)
        λ user. Triple-bind (read-Stays b d₀ _) λ subs. show_unsubscribe-Stays msg.chat_id subs

  set_timezone-Stays :
      (tz : String) (at : ℕ) (id : ℤ)
      → any_char is_forbidden tz ≡ false
      → Stays b d₀ (in_world (execute (set_timezone tz at id)))
  unfolding Leaves
  set_timezone-Stays tz at id clean =
      Triple-in_world
        (Triple-statement _ (λ d p. p) λ called d p. step d₀ d _ p (rezone tz at id d clean))

  set_zone-Stays :
      (chat : ℤ) (tz : String) (sender : Sender)
      → any_char is_forbidden tz ≡ false
      → Stays b d₀ (set_zone b chat tz sender)
  unfolding set_zone
  set_zone-Stays chat tz sender clean = Triple-bind (user-Stays b d₀ _ none) λ user.
      Triple-bind (Triple-in_world (Triple-now F))
        λ at. Triple-bind (set_timezone-Stays tz at user.id clean) λ n. Triple-say b F chat _

  checked_zone-Stays :
      (chat : ℤ) (tz : String) (sender : Sender) → Stays b d₀ (checked_zone b chat tz sender)
  unfolding checked_zone
  checked_zone-Stays chat tz sender = elim (Bool-cases (tz == "")) [
    | inl empty ↦ rw empty (Triple-say b F chat _)
    | inr full ↦ elim (Bool-cases (any_char is_forbidden tz)) [
      | inl bad ↦ rw (full, bad) (Triple-say b F chat _)
      | inr clean ↦ rw (full, clean) (set_zone-Stays chat tz sender clean)
    ]
  ]

  pub timezone-Stays : (msg : Message) (tz : String) → Stays b d₀ (timezone b msg tz)
  unfolding timezone
  timezone-Stays msg tz =
      with_sender-Stays b d₀ msg.from _ λ sender. checked_zone-Stays msg.chat_id (trim tz) sender

  remove-Stays : (id : ℤ) (o : Option ℤ) → Stays b d₀ (remove b id o)
  unfolding remove Leaves
  remove-Stays id none = done b d₀
  remove-Stays id (some chat) =
      Triple-bind
        (attempt-Stays b d₀ (
          Triple-in_world
            (Triple-statement _ (λ d p. p) λ at d p. step d₀ d _ p (Effects.remove id d))))
        λ n. Triple-say b F chat _

  pub callback_unsubscribe-Stays :
      (q : CallbackQuery) (id : ℤ) → Stays b d₀ (callback_unsubscribe b q id)
  unfolding callback_unsubscribe
  callback_unsubscribe-Stays q id = Triple-bind (Triple-answer b F) λ a. remove-Stays id q.chat

  store_feedback-Stays :
      (chat : ℤ) (body : String) (user : User) → Stays b d₀ (store_feedback b chat body user)
  unfolding store_feedback insert_feedback
  store_feedback-Stays chat body user =
      Triple-bind
        (Triple-in_world (
          Triple-statement _ (λ d p. p)
            λ at d p.
              effect-Leaves b d₀ (insert_feedback_row user.id body at d) d p
                λ id d'. comment user.id body at id d d'))
        λ id. Triple-say b F chat _

  timed_feedback-Stays :
      (chat : ℤ) (body : String) (user : User) (last at : ℕ)
      → Stays b d₀ (timed_feedback b chat body user last at)
  unfolding timed_feedback
  timed_feedback-Stays chat body user last at = elim (Bool-cases (ltb at (last + hour))) [
    | inl early ↦ rw early (Triple-say b F chat _)
    | inr late ↦ rw late (store_feedback-Stays chat body user)
  ]

  limited_feedback-Stays :
      (chat : ℤ) (body : String) (user : User) (o : Option ℕ)
      → Stays b d₀ (limited_feedback b chat body user o)
  unfolding limited_feedback
  limited_feedback-Stays chat body user none = store_feedback-Stays chat body user
  limited_feedback-Stays chat body user (some last) =
      Triple-bind (Triple-in_world (Triple-now F)) λ at. timed_feedback-Stays chat body user last at

  last-Stays : (id : ℤ) → Stays b d₀ (in_world (get_last_feedback_time id))
  unfolding get_last_feedback_time
  last-Stays id = Triple-in_world (
      Triple-bind (Triple-weaken (λ a d p. p.0) (λ d p. p) (Triple-select F _))
        λ row. Triple-pure _ λ d p. p)

  feedback_sender-Stays :
      (chat : ℤ) (body : String) (sender : Sender) → Stays b d₀ (feedback_sender b chat body sender)
  unfolding feedback_sender
  feedback_sender-Stays chat body sender = elim (Bool-cases (body == "")) [
    | inl empty ↦ rw empty (Triple-say b F chat _)
    | inr full ↦ elim (Bool-cases (ltb 1000 (len body))) [
      | inl long ↦ rw (full, long) (Triple-say b F chat _)
      | inr short ↦
          rw (full, short)
            (Triple-bind (user-Stays b d₀ _ none) λ user.
              Triple-bind (last-Stays user.id) λ last. limited_feedback-Stays chat body user last)
    ]
  ]

  pub feedback-Stays : (msg : Message) → Stays b d₀ (feedback b msg)
  unfolding feedback
  feedback-Stays msg = with_sender-Stays b d₀ msg.from _ λ sender.
      feedback_sender-Stays msg.chat_id (body_of (strip_prefix "/feedback" (or_empty msg.text)))
        sender

  outcome_names-Stays : (s : SubscriptionDetail) → Stays b d₀ (outcome_names b s)
  unfolding outcome_names
  outcome_names-Stays s = Triple-bind (read-Stays b d₀ _) λ row. Triple-pure _ λ d p. p

  list_entry-Stays : (i : ℕ) (s : SubscriptionDetail) → Stays b d₀ (list_entry b i s)
  unfolding list_entry
  list_entry-Stays i s =
      Triple-bind (outcome_names-Stays s)
        λ names. Triple-bind (attempt-Stays b d₀ (read-Stays b d₀ _)) λ rows. Triple-pure _ λ d p. p

  entries-Stays :
      (entry : ℕ → SubscriptionDetail → Exec Session (List String)) (i : ℕ)
      (subs : List SubscriptionDetail)
      → ((i : ℕ) (s : SubscriptionDetail) → Stays b d₀ (entry i s))
      → Stays b d₀ (entries b entry i subs)
  unfolding entries
  entries-Stays entry i [] h = Triple-pure _ λ d p. p
  entries-Stays entry i (s ∷ subs) h =
      Triple-bind (h i s)
        λ lines. Triple-bind (entries-Stays entry (suc i) subs h) λ rest. Triple-pure _ λ d p. p

  show_list-Stays :
      (chat : ℤ) (user : User) (subs : List SubscriptionDetail)
      → Stays b d₀ (show_list b chat user subs)
  unfolding show_list
  show_list-Stays chat user [] = Triple-say b F chat _
  show_list-Stays chat user (s ∷ subs) =
      Triple-bind (entries-Stays _ 0 (s ∷ subs) list_entry-Stays) λ lines. Triple-say b F chat _

  pub list-Stays : (msg : Message) → Stays b d₀ (list b msg)
  unfolding list list_sender get_user_subscriptions
  list-Stays msg = with_sender-Stays b d₀ msg.from _ λ sender.
      Triple-bind (user-Stays b d₀ _ none)
        λ user. Triple-bind (read-Stays b d₀ _) λ subs. show_list-Stays msg.chat_id user subs

  price_entry-Stays :
      (i : ℕ) (s : SubscriptionDetail) (label : String) (o : Option String)
      → Stays b d₀ (price_entry b i s label o)
  unfolding price_entry
  price_entry-Stays i s label none = Triple-pure _ λ d p. p
  price_entry-Stays i s label (some token_id) =
      Triple-bind (attempt-Stays b d₀ (Triple-in_world (Triple-ask F _)))
        λ found. Triple-pure _ λ d p. p

  prices_entry-Stays : (i : ℕ) (s : SubscriptionDetail) → Stays b d₀ (prices_entry b i s)
  unfolding prices_entry
  prices_entry-Stays i s =
      Triple-bind (outcome_names-Stays s)
        λ names. price_entry-Stays i s (outcome_label names s.outcome_index) _

  show_prices-Stays :
      (chat : ℤ) (subs : List SubscriptionDetail) → Stays b d₀ (show_prices b chat subs)
  unfolding show_prices
  show_prices-Stays chat [] = Triple-say b F chat _
  show_prices-Stays chat (s ∷ subs) = Triple-bind (Triple-say b F chat _) λ a.
      Triple-bind (entries-Stays _ 0 (s ∷ subs) prices_entry-Stays) λ lines. Triple-say b F chat _

  pub prices-Stays : (msg : Message) → Stays b d₀ (prices b msg)
  unfolding prices prices_sender get_user_subscriptions
  prices-Stays msg = with_sender-Stays b d₀ msg.from _ λ sender.
      Triple-bind (user-Stays b d₀ _ none)
        λ user. Triple-bind (read-Stays b d₀ _) λ subs. show_prices-Stays msg.chat_id subs
