-- ===== src/Bot/Handlers/Lists.antt =====
-- crates/pn-bot/src/handlers.rs: /list and /prices, which read the subscriptions of the sender.
use poly_notifier.Common.{
  ℕ, suc, ◌+◌, ℤ, String, string_eq, ◌<>◌, Option, none, some, List, [], ◌∷◌, ◌++◌, map, length,
  get_elem?,
}
use poly_notifier.Common.Int.{as_i64, as_usize}
use poly_notifier.Common.Texts.{join}
use poly_notifier.Common.Dict.{Dict, get}
use poly_notifier.Common.Numerals.{show_ℕ}
use poly_notifier.Store.Rows.{F64, User, Alert, SubscriptionDetail, Result, ok, err}
use poly_notifier.Store.World.{Exec, pure, attempt, ◌>>=◌, ◌>>◌, ask, select}
use poly_notifier.Store.Users.{get_or_create_user}
use poly_notifier.Store.Subscriptions.{get_user_subscriptions}
use poly_notifier.Bot.State.{Sender, Message, BotDeps, Session, in_world, say}
use poly_notifier.Bot.Rows.{outcomes_of, alert_rows}
use poly_notifier.Bot.Dialogues.{outcome_label, parsed, with_sender}

abbrev pub or_none_of {ℓ} : {A : Type ℓ} → Option (List A) → List A
or_none_of none = []
or_none_of (some xs) = xs

abbrev rows_of {ℓ} : {A : Type ℓ} → Result (List A) → List A
rows_of (ok rows) = rows
rows_of (err e) = []

module _ (b : BotDeps) where
  -- The outcomes of the subscription's market, from JSON.
  unfoldable pub outcome_names : SubscriptionDetail → Exec Session (List String)
  outcome_names s = do
    row ← in_world (select (outcomes_of s.condition_id))
    pure (or_none_of (parsed b.json.parse_strings row))

  price_str : Option F64 → String
  price_str none = "N/A"
  price_str (some p) = b.float.show_tenths (b.float.mul p (b.float.number 100)) <> "%"

  alert_line : Alert → String
  alert_line a =
      "   Alert: "
      <> (a.alert_type
          <> (" " <> (b.float.show_whole (b.float.mul a.threshold (b.float.number 100)) <> "%")))

  alert_str : List Alert → String
  unfolding join alert_line
  alert_str [] = "   No alerts"
  alert_str (a ∷ rows) = join "\n" (map alert_line (a ∷ rows))

  -- The four lines of one subscription.
  unfoldable pub list_entry : ℕ → SubscriptionDetail → Exec Session (List String)
  unfolding outcome_names price_str alert_str outcome_label show_ℕ
  list_entry i s = do
    names ← outcome_names s
    rows ← attempt (in_world (select (alert_rows s.subscription_id)))
    pure (
        (show_ℕ (i + 1) <> (". " <> s.question))
        ∷ ("   "
            <> (outcome_label names s.outcome_index
                <> (" @ "
                    <> price_str (
                        get_elem? (or_none_of (b.float.parse_floats s.last_prices))
                          (as_usize s.outcome_index)))))
        ∷ alert_str (rows_of rows)
        ∷ ""
        ∷ [])

  unfoldable pub entries :
      (ℕ → SubscriptionDetail → Exec Session (List String))
      → ℕ
      → List SubscriptionDetail
      → Exec Session (List String)
  entries entry i [] = pure []
  entries entry i (s ∷ subs) = do
    lines ← entry i s
    rest ← entries entry (suc i) subs
    pure (lines ++ rest)

  unfoldable pub show_list : ℤ → User → List SubscriptionDetail → Exec Session (Unit {0})
  unfolding entries list_entry join show_ℕ
  show_list chat user [] =
      say b chat "You have no active subscriptions.\n\nUse /subscribe to add one."
  show_list chat user (s ∷ subs) = do
    lines ← entries list_entry 0 (s ∷ subs)
    say b chat (
        join "\n" (
          ("Your Subscriptions ("
            <> (show_ℕ (length (s ∷ subs))
                <> ("/" <> (show_ℕ (as_usize user.max_subscriptions) <> "):"))))
          ∷ ""
          ∷ lines))

  unfoldable pub list_sender : ℤ → Sender → Exec Session (Unit {0})
  unfolding show_list get_or_create_user get_user_subscriptions
  list_sender chat sender = do
    user ← in_world (get_or_create_user (as_i64 sender.id) b.bot_id none)
    subs ← in_world (get_user_subscriptions user.id)
    show_list chat user subs

  unfoldable pub list : Message → Exec Session (Unit {0})
  unfolding list_sender
  list msg = with_sender b msg.from (list_sender msg.chat_id)

  abbrev or_na : Option b.decimal.Decimal → String
  or_na none = "N/A"
  or_na (some p) = b.show_price (b.decimal.percent p) <> "%"

  midpoint_str : String → Result (Dict String b.decimal.Decimal) → String
  unfolding get
  midpoint_str token_id (err e) = "fetch error"
  midpoint_str token_id (ok prices) = or_na (get token_id prices)

  unfoldable pub price_entry :
      ℕ → SubscriptionDetail → String → Option String → Exec Session (List String)
  unfolding midpoint_str show_ℕ
  price_entry i s label none =
      pure ((show_ℕ (i + 1) <> (". " <> (s.question <> " – token not found"))) ∷ "" ∷ [])
  price_entry i s label (some token_id) = do
    found ← attempt (in_world (ask (b.get_midpoints (token_id ∷ []))))
    pure (
        (show_ℕ (i + 1) <> (". " <> s.question))
        ∷ ("   " <> (label <> (" @ " <> midpoint_str token_id found)))
        ∷ ""
        ∷ [])

  -- The lines of one subscription, with the midpoint that the CLOB service answers.
  unfoldable pub prices_entry : ℕ → SubscriptionDetail → Exec Session (List String)
  unfolding outcome_names price_entry outcome_label
  prices_entry i s = do
    names ← outcome_names s
    price_entry i s (outcome_label names s.outcome_index)
        (get_elem? (or_none_of (b.json.parse_strings s.token_ids)) (as_usize s.outcome_index))

  unfoldable pub show_prices : ℤ → List SubscriptionDetail → Exec Session (Unit {0})
  unfolding entries prices_entry join
  show_prices chat [] = say b chat "You have no active subscriptions. Use /subscribe to add one."
  show_prices chat (s ∷ subs) = do
    say b chat "Fetching current prices…"
    lines ← entries prices_entry 0 (s ∷ subs)
    say b chat (join "\n" ("Current Prices:" ∷ "" ∷ lines))

  unfoldable pub prices_sender : ℤ → Sender → Exec Session (Unit {0})
  unfolding show_prices get_or_create_user get_user_subscriptions
  prices_sender chat sender = do
    user ← in_world (get_or_create_user (as_i64 sender.id) b.bot_id none)
    subs ← in_world (get_user_subscriptions user.id)
    show_prices chat subs

  unfoldable pub prices : Message → Exec Session (Unit {0})
  unfolding prices_sender
  prices msg = with_sender b msg.from (prices_sender msg.chat_id)
