-- ===== src/Bot/Removal.antt =====
-- lib.rs, dispatch_callback and handlers.rs, callback_unsubscribe: what a tapped removal button does.
use mathlib.Core.Path.{subst}
use poly_notifier.Common.{
  ◌+◌, ℤ, int_eq, int_beq_iff, String, ◌<>◌, ◌==◌, ◌≡◌, refl, sym, ap, ◌∙◌, Bool, true, false, not,
  ◌&&◌, ◌||◌, none, some, List, [], ◌∷◌, any, keep, arith, Bool-cases, Option-cases, inl, inr,
}
use poly_notifier.Common.Texts.{strip_prefix-other}
use poly_notifier.Common.Numerals.{show_ℤ}
use poly_notifier.Store.Rows.{Subscription, Alert, Result, ok, err}
use poly_notifier.Store.World.{
  Db, World, Exec, ◌>>=◌, statement, telegram_request, telegram_send, tick,
}
use poly_notifier.Store.Triples.{After, Triple, Triple-bind, Triple-pure}
use poly_notifier.Bot.State.{
  DialogueState, idle, awaiting_url, awaiting_market_selection, awaiting_outcome_selection,
  awaiting_subscribe_alert_type, awaiting_subscribe_alert_threshold, awaiting_alert_subscription,
  awaiting_alert_type, awaiting_alert_threshold, CallbackQuery, callback_query, BotDeps, Session,
  state_of, in_world, answer_callback_query,
}
use poly_notifier.Bot.Rows.{delete_subscription}
use poly_notifier.Bot.Dialogues.{parsed, tapped_index, tapped_id, tapped_alert_type, ask_threshold}
use poly_notifier.Bot.Dialogues.Subscribe.{
  handle_market_selection, market_at, handle_outcome_selection, outcome_tapped,
  handle_subscribe_alert_type_selection,
}
use poly_notifier.Bot.Dialogues.Alert.{
  handle_alert_subscription_selection, subscription_tapped, handle_alert_type_selection,
}
use poly_notifier.Bot.Handlers.{callback_unsubscribe, remove}
use poly_notifier.Bot.Dispatch.{
  one_shot, dispatch_callback, tapped_in, handle_callback, handle_update,
}
use poly_notifier.Bot.Effects.{rows_of_session}
use poly_notifier.Bot.Effects.Dialogues.{Triple-answer}
use poly_notifier.Bot.Taps.{IsI64, tapped_id-show_ℤ}

not_true : false ≡ true → ⊥
not_true h = cc

-- The states in which a conversation waits for a tapped button.
abbrev pub takes_callback : DialogueState → Bool
takes_callback (awaiting_market_selection ms) = true
takes_callback (awaiting_outcome_selection m) = true
takes_callback (awaiting_subscribe_alert_type m i) = true
takes_callback awaiting_alert_subscription = true
takes_callback (awaiting_alert_type id q) = true
takes_callback _ = false

-- The data of a removal button.
abbrev pub removal_data : ℤ → String
removal_data id = "unsub:" <> show_ℤ id

no_index : (id : ℤ) → parsed (tapped_index "market:") (some (removal_data id)) ≡ none
unfolding tapped_index
no_index id = rw (strip_prefix-other "m" "u" "arket:" "nsub:" (show_ℤ id) refl) refl

no_outcome : (id : ℤ) → parsed (tapped_id "outcome:") (some (removal_data id)) ≡ none
unfolding tapped_id
no_outcome id = rw (strip_prefix-other "o" "u" "utcome:" "nsub:" (show_ℤ id) refl) refl

no_type : (id : ℤ) → parsed tapped_alert_type (some (removal_data id)) ≡ none
unfolding tapped_alert_type
no_type id = rw (strip_prefix-other "a" "u" "lert_type:" "nsub:" (show_ℤ id) refl) refl

no_subscription : (id : ℤ) → parsed (tapped_id "sub:") (some (removal_data id)) ≡ none
unfolding tapped_id
no_subscription id = rw (strip_prefix-other "s" "u" "ub:" "nsub:" (show_ℤ id) refl) refl

telegram_db :
    (bot_id : String) (chat : ℤ) (text : String) (w : World)
    → (telegram_send bot_id chat text w).1.db ≡ w.db
unfolding telegram_send
telegram_db bot_id chat text w = elim (Option-cases (w.telegram_fault w.calls)) [
  | inl none_of ↦ rw (none_of, telegram_send) refl
  | inr (e, fault) ↦ rw (fault, telegram_send) refl
]

absorb : (p q : Bool) → p || (q && p) ≡ p
absorb true q = refl
absorb false true = refl
absorb false false = refl

other_way : (id k : ℤ) → (id == k) ≡ (k == id)
other_way id k = ground (arith, int_beq_iff id k, int_beq_iff k id)

-- The alerts of the subscription that is removed.
cascaded :
    (id k : ℤ) (subs : List Subscription)
    → any (λ s. (s.id == id) && (s.id == k)) subs ≡ any (λ s. s.id == id) subs && (k == id)
cascaded id k [] = refl
cascaded id k (s ∷ subs) = elim (Bool-cases (s.id == id)) [
  | inl hit ↦
      rw (cascaded id k subs, hit, (int_beq_iff s.id id).0 hit, other_way id k) (absorb (k == id) _)
  | inr miss ↦ rw (cascaded id k subs, miss) refl
]

kept_alerts :
    (id : ℤ) (subs : List Subscription) (alerts : List Alert)
    → any (λ s. s.id == id) subs ≡ true
    → keep (λ a. not (any (λ s. (s.id == id) && (s.id == a.subscription_id)) subs)) alerts
      ≡ keep (λ a. not (a.subscription_id == id)) alerts
kept_alerts id subs [] h = refl
kept_alerts id subs (a ∷ alerts) h =
    rw (kept_alerts id subs alerts h, cascaded id a.subscription_id subs, h) refl

module _ (b : BotDeps) where
  module _ (d : Db) where
    abbrev Unchanged : {A : Type 0} → Exec Session A → Type 0
    Unchanged m = Triple rows_of_session (λ e. e ≡ d) m (λ a e. e ≡ d) (λ e. e ≡ d)

    swallowed :
        (chat : ℤ) (q : CallbackQuery) (id : ℤ) (st : DialogueState)
        → q.data_text ≡ some (removal_data id)
        → takes_callback st ≡ true
        → Unchanged (tapped_in b chat q st)
    unfolding tapped_in handle_market_selection market_at handle_outcome_selection outcome_tapped
        handle_subscribe_alert_type_selection ask_threshold handle_alert_subscription_selection
        subscription_tapped handle_alert_type_selection
    swallowed chat q id (awaiting_market_selection ms) e h =
        Triple-bind (Triple-answer b _) λ a. rw (e, no_index id) (Triple-pure tt λ v p. p)
    swallowed chat q id (awaiting_outcome_selection m) e h =
        Triple-bind (Triple-answer b _) λ a. rw (e, no_outcome id) (Triple-pure tt λ v p. p)
    swallowed chat q id (awaiting_subscribe_alert_type m i) e h =
        Triple-bind (Triple-answer b _) λ a. rw (e, no_type id) (Triple-pure tt λ v p. p)
    swallowed chat q id awaiting_alert_subscription e h =
        Triple-bind (Triple-answer b _) λ a. rw (e, no_subscription id) (Triple-pure tt λ v p. p)
    swallowed chat q id (awaiting_alert_type k question) e h =
        Triple-bind (Triple-answer b _) λ a. rw (e, no_type id) (Triple-pure tt λ v p. p)
    swallowed chat q id idle e h = elim (not_true h) [ ]
    swallowed chat q id awaiting_url e h = elim (not_true h) [ ]
    swallowed chat q id (awaiting_subscribe_alert_threshold m i t) e h = elim (not_true h) [ ]
    swallowed chat q id (awaiting_alert_threshold k question t) e h = elim (not_true h) [ ]

    settled : {A : Type 0} (r : Result A) (e : Db) → After (λ a e. e ≡ d) (λ e. e ≡ d) r e → e ≡ d
    unfolding After
    settled (ok a) e p = p
    settled (err x) e p = p

  -- While the conversation of a chat waits for a tapped button of its own, a tap of a removal button in
  -- that chat removes nothing: the database stays as it is, whatever fails.
  pub handle_update-swallows :
      (q : CallbackQuery) (chat id : ℤ) (s : Session)
      → q.chat ≡ some chat
      → q.data_text ≡ some (removal_data id)
      → takes_callback (state_of chat s) ≡ true
      → (handle_update b (callback_query q) s).1.db ≡ s.db
  unfolding handle_update handle_callback
  handle_update-swallows q chat id s c e h =
      rw (c, handle_callback)
        (settled s.db (tapped_in b chat q (state_of chat s) s).0
          (tapped_in b chat q (state_of chat s) s).1.db
          ((swallowed s.db chat q id (state_of chat s) e h).at s refl))

  one_shot_only :
      (chat : ℤ) (q : CallbackQuery) (st : DialogueState)
      → takes_callback st ≡ false
      → tapped_in b chat q st ≡ dispatch_callback b q
  unfolding tapped_in
  one_shot_only chat q (awaiting_market_selection ms) h = elim (not_true (sym h)) [ ]
  one_shot_only chat q (awaiting_outcome_selection m) h = elim (not_true (sym h)) [ ]
  one_shot_only chat q (awaiting_subscribe_alert_type m i) h = elim (not_true (sym h)) [ ]
  one_shot_only chat q awaiting_alert_subscription h = elim (not_true (sym h)) [ ]
  one_shot_only chat q (awaiting_alert_type k question) h = elim (not_true (sym h)) [ ]
  one_shot_only chat q idle h = refl
  one_shot_only chat q awaiting_url h = refl
  one_shot_only chat q (awaiting_subscribe_alert_threshold m i t) h = refl
  one_shot_only chat q (awaiting_alert_threshold k question t) h = refl

  removed :
      (id chat : ℤ) (s : Session)
      → s.db_fault s.calls ≡ none
      → (remove b id (some chat) s).1.db ≡ (delete_subscription id s.db).1
  unfolding remove ◌>>=◌ in_world statement
  removed id chat s sound = rw (sound, statement) (telegram_db b.bot_id chat _ _)

  one_shot-removes :
      (q : CallbackQuery) (chat id : ℤ) (s : Session)
      → q.chat ≡ some chat
      → s.telegram_fault s.calls ≡ none
      → s.db_fault (s.calls + 1) ≡ none
      → (callback_unsubscribe b q id s).1.db ≡ (delete_subscription id s.db).1
  unfolding callback_unsubscribe ◌>>=◌ in_world telegram_request
  one_shot-removes q chat id s c heard sound =
      ap (λ o. ((answer_callback_query >>= λ a. remove b id o) s).1.db) c
      ∙ rw (heard, telegram_request) (removed id chat (record s { world = tick s.world }) sound)

  read_removal :
      (id : ℤ) → IsI64 id → parsed (tapped_id "unsub:") (some (removal_data id)) ≡ some id
  read_removal id h = tapped_id-show_ℤ "unsub:" id h

  -- A tap of the removal button of an existing subscription, in a chat whose conversation waits for no
  -- button, where Telegram takes the answer and the database the statement: the subscriptions that are
  -- left are those with another id, the alerts those of other subscriptions, and the users and markets
  -- stay.
  pub handle_update-removes :
      (q : CallbackQuery) (chat id : ℤ) (s : Session)
      → q.chat ≡ some chat
      → q.data_text ≡ some (removal_data id)
      → IsI64 id
      → takes_callback (state_of chat s) ≡ false
      → any (λ x. x.id == id) s.subscriptions ≡ true
      → s.telegram_fault s.calls ≡ none
      → s.db_fault (s.calls + 1) ≡ none
      → let d = (handle_update b (callback_query q) s).1.db in
        (d.subscriptions ≡ keep (λ x. not (x.id == id)) s.subscriptions)
        × ((d.alerts ≡ keep (λ a. not (a.subscription_id == id)) s.alerts)
            × ((d.users ≡ s.users) × (d.markets ≡ s.markets)))
  unfolding handle_update handle_callback dispatch_callback one_shot delete_subscription
  handle_update-removes q chat id s c e range st exists heard sound =
      subst
        (λ d.
          (d.subscriptions ≡ keep (λ x. not (x.id == id)) s.subscriptions)
          × ((d.alerts ≡ keep (λ a. not (a.subscription_id == id)) s.alerts)
              × ((d.users ≡ s.users) × (d.markets ≡ s.markets))))
        (sym (
          ap (λ o. (handle_callback b q o s).1.db) c
          ∙ ap (λ m. (m s).1.db) (one_shot_only chat q (state_of chat s) st)
          ∙ ap (λ o. (one_shot b q o s).1.db)
              (ap (parsed (tapped_id "unsub:")) e ∙ read_removal id range)
          ∙ one_shot-removes q chat id s c heard sound))
        (refl, (kept_alerts id s.subscriptions s.alerts exists, (refl, refl)))
