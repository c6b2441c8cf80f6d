-- ===== src/Bot/Moves/Updates.antt =====
-- lib.rs: over any updates, the conversation of every chat walks along the graph.
use mathlib.Core.Path.{subst}
use poly_notifier.Common.{ℤ, ◌≡◌, refl, sym, ◌⊎◌, inl, inr, Option, none, some, List, [], ◌∷◌, ◌∙◌}
use poly_notifier.Store.Rows.{Result, ok, err}
use poly_notifier.Store.World.{Exec, pure}
use poly_notifier.Store.Triples.{After}
use poly_notifier.Bot.State
use poly_notifier.Bot.State.{
  DialogueState, idle, awaiting_url, awaiting_market_selection, awaiting_outcome_selection,
  awaiting_subscribe_alert_type, awaiting_subscribe_alert_threshold, awaiting_alert_subscription,
  awaiting_alert_type, awaiting_alert_threshold, Command, Message, CallbackQuery, Update, message,
  callback_query, BotDeps, Session, state_of,
}
use poly_notifier.Bot.Handlers.{subscribe, alert}
use poly_notifier.Bot.Dispatch.{
  run_command, plain_message, handle_message, one_shot, dispatch_callback, tapped_in,
  handle_callback, handle_update, dispatch,
}
use poly_notifier.Bot.Moves.{
  Edge, Walk, rest, stay, walk, TappedIn, Dialogues, state_in, Moved, Moves, quietly, pure-Quiet,
  Quiet-Moves,
}
use poly_notifier.Bot.Moves.Dialogues.{
  handle_subscribe_start-Moves, handle_url_input-Moves, handle_market_selection-Moves,
  handle_outcome_selection-Moves, handle_subscribe_alert_type_selection-Moves,
  handle_alert_type_selection-Moves,
}
use poly_notifier.Bot.Moves.Thresholds.{
  handle_subscribe_alert_threshold-Moves, handle_alert_start-Moves,
  handle_alert_subscription_selection-Moves, handle_alert_threshold-Moves,
}
use poly_notifier.Bot.Moves.Handlers.{
  start-Quiet, help-Quiet, list-Quiet, prices-Quiet, unsubscribe-Quiet, timezone-Quiet,
  callback_unsubscribe-Quiet, feedback-Quiet,
}

module _ (b : BotDeps) where
  module _ (ds : Dialogues) (msg : Message) where
    run_command-Moves :
        (c : Command)
        → b.parse_command msg ≡ some c
        → Moves b (message msg) ds (run_command b msg c)
    unfolding run_command subscribe alert
    run_command-Moves State.start k =
        Quiet-Moves b (message msg) ds (start-Quiet b (message msg) ds msg)
    run_command-Moves State.help k =
        Quiet-Moves b (message msg) ds (help-Quiet b (message msg) ds msg)
    run_command-Moves State.list k =
        Quiet-Moves b (message msg) ds (list-Quiet b (message msg) ds msg)
    run_command-Moves State.prices k =
        Quiet-Moves b (message msg) ds (prices-Quiet b (message msg) ds msg)
    run_command-Moves State.subscribe k = handle_subscribe_start-Moves b ds msg k
    run_command-Moves State.unsubscribe k =
        Quiet-Moves b (message msg) ds (unsubscribe-Quiet b (message msg) ds msg)
    run_command-Moves State.alert k = handle_alert_start-Moves b ds msg k
    run_command-Moves State.feedback k =
        Quiet-Moves b (message msg) ds (feedback-Quiet b (message msg) ds msg)
    run_command-Moves (State.timezone tz) k =
        Quiet-Moves b (message msg) ds (timezone-Quiet b (message msg) ds msg tz)

    ignored : Moves b (message msg) ds {A = Unit {0}} (pure tt)
    ignored = Quiet-Moves b (message msg) ds (pure-Quiet b (message msg) ds tt)

    plain_message-Moves :
        (st : DialogueState)
        → b.parse_command msg ≡ none
        → state_in msg.chat_id ds ≡ st
        → Moves b (message msg) ds (plain_message b msg st)
    unfolding plain_message
    plain_message-Moves idle k e = ignored
    plain_message-Moves awaiting_url k e = handle_url_input-Moves b ds msg k e
    plain_message-Moves (awaiting_market_selection ms) k e = ignored
    plain_message-Moves (awaiting_outcome_selection m) k e = ignored
    plain_message-Moves (awaiting_subscribe_alert_type m i) k e = ignored
    plain_message-Moves (awaiting_subscribe_alert_threshold m i t) k e =
        handle_subscribe_alert_threshold-Moves b ds msg k m i t e
    plain_message-Moves awaiting_alert_subscription k e = ignored
    plain_message-Moves (awaiting_alert_type id q) k e = ignored
    plain_message-Moves (awaiting_alert_threshold id q t) k e =
        handle_alert_threshold-Moves b ds msg k id q t e

  module _ (ds : Dialogues) (q : CallbackQuery) where
    one_shot-Moves : (o : Option ℤ) → Moves b (callback_query q) ds (one_shot b q o)
    unfolding one_shot
    one_shot-Moves none = Quiet-Moves b (callback_query q) ds (quietly b (callback_query q) ds _)
    one_shot-Moves (some id) =
        Quiet-Moves b (callback_query q) ds
          (callback_unsubscribe-Quiet b (callback_query q) ds q id)

    dispatch_callback-Moves : Moves b (callback_query q) ds (dispatch_callback b q)
    unfolding dispatch_callback
    dispatch_callback-Moves = one_shot-Moves _

    tapped_in-Moves :
        (chat : ℤ) (st : DialogueState)
        → TappedIn chat q
        → ((c : ℤ) → q.chat ≡ some c → c ≡ chat)
        → state_in chat ds ≡ st
        → Moves b (callback_query q) ds (tapped_in b chat q st)
    unfolding tapped_in
    tapped_in-Moves chat idle tap k e = dispatch_callback-Moves
    tapped_in-Moves chat awaiting_url tap k e = dispatch_callback-Moves
    tapped_in-Moves chat (awaiting_market_selection ms) tap k e =
        handle_market_selection-Moves b ds chat q tap ms e k
    tapped_in-Moves chat (awaiting_outcome_selection m) tap k e =
        handle_outcome_selection-Moves b ds chat q tap m e
    tapped_in-Moves chat (awaiting_subscribe_alert_type m i) tap k e =
        handle_subscribe_alert_type_selection-Moves b ds chat q tap m i e
    tapped_in-Moves chat (awaiting_subscribe_alert_threshold m i t) tap k e =
        dispatch_callback-Moves
    tapped_in-Moves chat awaiting_alert_subscription tap k e =
        handle_alert_subscription_selection-Moves b ds chat q tap e
    tapped_in-Moves chat (awaiting_alert_type id question) tap k e =
        handle_alert_type_selection-Moves b ds chat q tap id question e
    tapped_in-Moves chat (awaiting_alert_threshold id question t) tap k e = dispatch_callback-Moves

  module _ (u : Update) (ds : Dialogues) where
    settled :
        {A : Type 0} (r : Result A) (v : Dialogues)
        → After (λ a. Moved b u ds) (Moved b u ds) r v
        → Moved b u ds v
    unfolding After
    settled (ok a) v p = p
    settled (err e) v p = p

    driven_by :
        {A : Type 0} (m : Exec Session A) (s : Session)
        → Moves b u ds m
        → s.dialogues ≡ ds
        → Moved b u ds (m s).1.dialogues
    driven_by m s h e = settled (m s).0 (m s).1.dialogues (h.at s e)

  some_same : (a c : ℤ) → some a ≡ some c → c ≡ a
  some_same a c h = cc

  handle_message-Moved :
      (msg : Message) (o : Option Command) (s : Session)
      → b.parse_command msg ≡ o
      → Moved b (message msg) s.dialogues (handle_message b msg o s).1.dialogues
  unfolding handle_message state_of
  handle_message-Moved msg (some c) s k =
      driven_by (message msg) s.dialogues (run_command b msg c) s
        (run_command-Moves s.dialogues msg c k) refl
  handle_message-Moved msg none s k =
      driven_by (message msg) s.dialogues (plain_message b msg (state_of msg.chat_id s)) s
        (plain_message-Moves s.dialogues msg (state_of msg.chat_id s) k refl) refl

  handle_callback-Moved :
      (q : CallbackQuery) (o : Option ℤ) (s : Session)
      → q.chat ≡ o
      → Moved b (callback_query q) s.dialogues (handle_callback b q o s).1.dialogues
  unfolding handle_callback state_of
  handle_callback-Moved q none s e =
      driven_by (callback_query q) s.dialogues (dispatch_callback b q) s
        (dispatch_callback-Moves s.dialogues q) refl
  handle_callback-Moved q (some chat) s e =
      driven_by (callback_query q) s.dialogues (tapped_in b chat q (state_of chat s)) s
        (tapped_in-Moves s.dialogues q chat (state_of chat s) e
          (λ c k. some_same chat c (sym e ∙ k)) refl)
        refl

  -- One update moves the conversation of every chat by at most one step of the graph.
  handle_update-Moved :
      (u : Update) (s : Session) → Moved b u s.dialogues (handle_update b u s).1.dialogues
  unfolding handle_update
  handle_update-Moved (message msg) s = handle_message-Moved msg (b.parse_command msg) s refl
  handle_update-Moved (callback_query q) s = handle_callback-Moved q q.chat s refl

  continued :
      (chat : ℤ) (u : Update) (us : List Update) (st st' st'' : DialogueState)
      → (st' ≡ st) ⊎ Edge b chat u st st'
      → Walk b chat us st' st''
      → Walk b chat (u ∷ us) st st''
  continued chat u us st st' st'' (inl same) w =
      stay u us st st'' (subst (λ x. Walk b chat us x st'') same w)
  continued chat u us st st' st'' (inr e) w = walk u us st st' st'' e w

  -- Whatever updates come and whatever fails, each of them leaves the conversation of a chat where it is
  -- or moves it by one step of the graph `Edge`, which the update itself accounts for: it is of that
  -- chat; /subscribe and /alert begin, from any state; the markets on offer are the first ten of an
  -- answer of the Gamma service to the text; the market, the outcome, the subscription and the alert
  -- type of the next state are those of the tapped button, and all else is what the step before it
  -- gathered; a flow ends with a percentage from 0 to 100, with the tap of a market that is not on
  -- offer, or with the tap of a subscription. The question shown with a subscription, and whether the
  -- tapped subscription exists, are not followed.
  pub dispatch-Walk :
      (us : List Update) (s : Session) (chat : ℤ)
      → Walk b chat us (state_of chat s) (state_of chat (dispatch b us s))
  unfolding dispatch state_of
  dispatch-Walk [] s chat = rest _
  dispatch-Walk (u ∷ us) s chat =
      continued chat u us _ _ _ (handle_update-Moved u s chat)
        (dispatch-Walk us (handle_update b u s).1 chat)
