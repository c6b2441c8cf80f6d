-- ===== src/Bot/Subscribing/Success.antt =====
-- dialogues.rs: what a subscription that nothing stops leaves in the tables.
use poly_notifier.Common.{
  ℕ, ◌+◌, ℤ, pos, leb_ℤ, int_eq, beq_refl, String, ◌==◌, string_eq, ◌≡◌, refl, ap, ◌∙◌, true, false,
  ◌&&◌, none, some, [], ◌∷◌, ◌++◌, find, any, find-any,
}
use poly_notifier.Common.Int.{as_i64}
use poly_notifier.Common.Texts.{trim}
use poly_notifier.Store.Rows.{F64, User, Market, Subscription, Result, ok, err}
use poly_notifier.Store.World.{Db, Exec, attempt, ◌>>=◌, statement}
use poly_notifier.Store.Steps.{bound, attempted}
use poly_notifier.Store.Users.{has_key}
use poly_notifier.Store.Markets.{refreshed}
use poly_notifier.Store.Subscriptions.{count_active_subscriptions}
use poly_notifier.Store.Logs.{has_user}
use poly_notifier.Store.Triples.{After, Triple-bind}
use poly_notifier.Bot.State.{MarketOption, Sender, Message, BotDeps, Session, in_world}
use poly_notifier.Bot.Rows.{
  insert_subscription, insert_alert_row, is_for, is_alert_type, new_subscription, new_alert,
}
use poly_notifier.Bot.Dialogues.{
  valid, read_percentage, with_percentage, percentage_of, threshold_of, with_sender,
}
use poly_notifier.Bot.Dialogues.Subscribe.{
  Wish, finish, first_alert, inserted_subscription, create_subscription, within_quota,
  subscribe_sender, handle_subscribe_alert_threshold,
}
use poly_notifier.Bot.Effects.{active_count}
use poly_notifier.Bot.Effects.Dialogues.{Triple-say, Triple-update}
use poly_notifier.Bot.Subscribing.{
  put, stated, known_user, upserted, find-append, any-append_last, any-both, any-change_where,
  HasSameName, updated,
}

module _ (b : BotDeps) where
  settled :
      (d : Db) (r : Result (Unit {0})) (e : Db) → After (λ a e. e ≡ d) (λ e. e ≡ d) r e → e ≡ d
  unfolding After
  settled d (ok a) e p = p
  settled d (err x) e p = p

  finished : (chat : ℤ) (text : String) (s : Session) → (finish b chat text s).1.db ≡ s.db
  unfolding finish
  finished chat text s = settled s.db (finish b chat text s).0 (finish b chat text s).1.db (
      (Triple-bind (Triple-say b (λ e. e ≡ s.db) chat text)
          λ a. Triple-update b (λ e. e ≡ s.db) chat _).at
        s refl)

  -- The rows after the alert.
  abbrev with_alert : Wish b → ℤ → ℕ → Db → Db
  with_alert r id at d = record d {
    alerts =
        d.alerts ++ new_alert (pos d.next_alert) id r.alert_type (threshold_of b r.pct) at ∷ [];
    next_alert = d.next_alert + 1;
  }

  alert_added :
      (r : Wish b) (x : Subscription) (s : Session)
      → s.db_fault s.calls ≡ none
      → is_alert_type r.alert_type ≡ true
      → any (λ y. y.id == x.id) s.subscriptions ≡ true
      → (first_alert b r (some x) s).1.db ≡ with_alert r x.id (s.clock s.calls) s.db
  unfolding first_alert insert_alert_row
  alert_added r x s sound good there_is =
      ap (λ o. o.1.db)
        (bound _ _ s (put (with_alert r x.id (s.clock s.calls) s.db) s) (ok 1)
          (attempted _ s _ 1 (stated _ s 1 _ sound (rw (good, there_is) refl))))
      ∙ finished r.chat _ _

  -- The rows after the subscription.
  abbrev with_subscription : ℤ → ℤ → ℤ → ℕ → Db → Db
  with_subscription user_id market_id i at d = record d {
    subscriptions =
        d.subscriptions ++ new_subscription (pos d.next_subscription) user_id market_id i at ∷ [];
    next_subscription = d.next_subscription + 1;
  }

  own :
      (user_id market_id i : ℤ) (id : ℤ) (at : ℕ)
      → is_for user_id market_id i (new_subscription id user_id market_id i at) && true ≡ true
  own user_id market_id i id at = rw (beq_refl user_id, beq_refl market_id, beq_refl i) refl

  abbrev joined : Wish b → User → ℤ → Session → Db
  joined r user market_id s =
      with_subscription user.id market_id r.outcome_index (s.clock s.calls) s.db

  abbrev row_of : Wish b → User → ℤ → Session → Subscription
  row_of r user market_id s =
      new_subscription (pos s.next_subscription) user.id market_id r.outcome_index (s.clock s.calls)

  -- Once the market is there: the new subscription is found again, and it gets the alert.
  pair_added :
      (r : Wish b) (user : User) (market_id : ℤ) (s : Session)
      → ((n : ℕ) → s.db_fault n ≡ none)
      → is_alert_type r.alert_type ≡ true
      → has_user user.id s.db && any (λ m. m.id == market_id) s.markets ≡ true
      → any (λ x. is_for user.id market_id r.outcome_index x && x.is_active) s.subscriptions ≡ false
      → any (is_for user.id market_id r.outcome_index) s.subscriptions ≡ false
      → ((attempt (in_world (statement (insert_subscription user.id market_id r.outcome_index)))
            >>= λ n. inserted_subscription b r user.id market_id n)
          s).1.db
        ≡ with_alert r
            (pos s.next_subscription)
            (s.clock (s.calls + 1 + 1))
            (with_subscription user.id market_id r.outcome_index (s.clock s.calls) s.db)
  unfolding inserted_subscription insert_subscription
  pair_added r user market_id s sound good there_are fresh new =
      ap (λ o. o.1.db)
        (bound _ _ s (put (joined r user market_id s) s) (ok 1) (
            attempted _ s _ 1
              (stated _ s 1 (joined r user market_id s) (sound s.calls) (rw (new, there_are) refl)))
          ∙ bound _ _ (put (joined r user market_id s) s)
              (put (joined r user market_id s) (put (joined r user market_id s) s))
              (some (row_of r user market_id s))
              (stated _ (put (joined r user market_id s) s) (some (row_of r user market_id s))
                (joined r user market_id s) (sound (s.calls + 1))
                (ap (λ o. ok (o, joined r user market_id s))
                  (find-append _ s.subscriptions (row_of r user market_id s) fresh (
                    own user.id market_id r.outcome_index (pos s.next_subscription)
                      (s.clock s.calls))))))
      ∙ alert_added r (row_of r user market_id s)
          (put (joined r user market_id s) (put (joined r user market_id s) s))
          (sound (s.calls + 1 + 1)) good
          (any-append_last _ s.subscriptions (row_of r user market_id s)
            (beq_refl (row_of r user market_id s).id))

  -- The sessions after the reads and after the upsert.
  abbrev read : Session → Session
  read s = put s.db (put s.db s)

  abbrev ready : Wish b → Session → Session
  ready r s =
      put
        (updated r.market (b.json.print_strings r.market.outcomes)
          (b.json.print_strings r.market.token_ids) (s.clock s.calls) s.db)
        (put s.db s)

  both_there :
      (r : Wish b) (user : User) (k : Market) (s : Session)
      → any (λ u. u.id == user.id) s.users ≡ true
      → find (λ k. k.condition_id == r.market.condition_id) s.markets ≡ some k
      → has_user user.id s.db && any (λ m. m.id == k.id) (ready r s).markets ≡ true
  both_there r user k s there_is known =
      rw
        (
          there_is,
          any-change_where (λ m. m.id == k.id) (λ k. k.condition_id == r.market.condition_id)
              (refreshed r.market.question none (b.json.print_strings r.market.outcomes)
                (b.json.print_strings r.market.token_ids) (s.clock s.calls))
              s.markets λ x. refl,
        )
        (find-any (λ k. k.condition_id == r.market.condition_id) (λ m. m.id == k.id) s.markets k
          known (beq_refl k.id))

  created :
      (r : Wish b) (user : User) (k : Market) (s : Session)
      → ((n : ℕ) → s.db_fault n ≡ none)
      → is_alert_type r.alert_type ≡ true
      → any (λ u. u.id == user.id) s.users ≡ true
      → find (λ k. k.condition_id == r.market.condition_id) s.markets ≡ some k
      → any (is_for user.id k.id r.outcome_index) s.subscriptions ≡ false
      → (create_subscription b r user s).1.db
        ≡ with_alert r
            (pos s.next_subscription)
            (s.clock (s.calls + 1 + 1 + 1 + 1))
            (joined r user k.id (ready r s))
  unfolding create_subscription
  created r user k s sound good there_is known new =
      ap (λ o. o.1.db)
        (bound _ _ s (ready r s) k.id (upserted r.market _ _ k s (sound (s.calls + 1)) known))
      ∙ pair_added r user k.id (ready r s) sound good (both_there r user k s there_is known)
          (any-both _ (λ x. x.is_active) s.subscriptions new) new

  let_in :
      (r : Wish b) (user : User) (n : ℕ) (s : Session)
      → leb_ℤ user.max_subscriptions (pos n) ≡ false
      → (within_quota b r user n s).1.db ≡ (create_subscription b r user s).1.db
  unfolding within_quota
  let_in r user n s free = rw (free, within_quota) refl

  subscribed :
      (r : Wish b) (sender : Sender) (user : User) (k : Market) (s : Session)
      → find (has_key (as_i64 sender.id) b.bot_id) s.users ≡ some user
      → HasSameName sender.username user
      → leb_ℤ user.max_subscriptions (pos (active_count user.id s.db)) ≡ false
      → is_alert_type r.alert_type ≡ true
      → find (λ k. k.condition_id == r.market.condition_id) s.markets ≡ some k
      → any (is_for user.id k.id r.outcome_index) s.subscriptions ≡ false
      → ((n : ℕ) → s.db_fault n ≡ none)
      → (subscribe_sender b r sender s).1.db
        ≡ with_alert r
            (pos s.next_subscription)
            (s.clock (s.calls + 1 + 1 + 1 + 1 + 1 + 1))
            (joined r user k.id (ready r (read s)))
  unfolding subscribe_sender count_active_subscriptions
  subscribed r sender user k s known same_name free good market new sound =
      ap (λ o. o.1.db)
        (bound _ _ s (put s.db s) user (
            known_user (as_i64 sender.id) b.bot_id sender.username user s (sound s.calls) known
              same_name)
          ∙ bound _ _ (put s.db s) (read s) (active_count user.id s.db)
              (stated _ (put s.db s) _ s.db (sound (s.calls + 1)) refl))
      ∙ let_in r user (active_count user.id s.db) (read s) free
      ∙ created r user k (read s) sound good
          (find-any _ (λ u. u.id == user.id) s.users user known (beq_refl user.id)) market new

  abbrev as_wish : Message → MarketOption → ℤ → String → F64 → Wish b
  as_wish msg m i t pct = record {
    chat = msg.chat_id;
    market = m;
    outcome_index = i;
    alert_type = t;
    pct = pct;
  }

  abbrev from_sender : Message → MarketOption → ℤ → String → F64 → Exec Session (Unit {0})
  from_sender msg m i t pct = with_sender b msg.from (subscribe_sender b (as_wish msg m i t pct))

  -- Without a fault of the database: a percentage from 0 to 100 in the last step of the subscribe flow,
  -- from a sender who has a row under the bot and shows no user name or the one in that row, who is
  -- below the limit of active subscriptions, for a known alert type, a market that has a row and an
  -- outcome that the user has no subscription of, ends in exactly one new row of the subscriptions,
  -- for that user, market and outcome, and exactly one new row of the alerts, for that subscription,
  -- type and hundredth of the percentage, whatever Telegram refuses.
  pub handle_subscribe_alert_threshold-subscribes :
      (msg : Message) (m : MarketOption) (i : ℤ) (t text : String) (pct : F64) (sender : Sender)
      (user : User) (k : Market) (s : Session)
      → msg.text ≡ some text
      → read_percentage b.float (trim text) ≡ valid pct
      → msg.from ≡ some sender
      → find (has_key (as_i64 sender.id) b.bot_id) s.users ≡ some user
      → HasSameName sender.username user
      → leb_ℤ user.max_subscriptions (pos (active_count user.id s.db)) ≡ false
      → is_alert_type t ≡ true
      → find (λ k. k.condition_id == m.condition_id) s.markets ≡ some k
      → any (is_for user.id k.id i) s.subscriptions ≡ false
      → ((n : ℕ) → s.db_fault n ≡ none)
      → let d = (handle_subscribe_alert_threshold b msg m i t s).1.db in
        (at : ℕ) × (at' : ℕ) × (d.subscriptions
          ≡ s.subscriptions ++ new_subscription (pos s.next_subscription) user.id k.id i at ∷ [])
        × (d.alerts
            ≡ s.alerts
              ++ new_alert (pos s.next_alert) (pos s.next_subscription) t (threshold_of b pct) at'
                ∷ [])
  unfolding handle_subscribe_alert_threshold with_percentage percentage_of
  handle_subscribe_alert_threshold-subscribes msg m i t text pct sender user k s said right from
        known same_name free good market new sound =
      let r : Wish b = as_wish msg m i t pct in
      let d : Db =
        with_alert r (pos s.next_subscription) (s.clock (s.calls + 1 + 1 + 1 + 1 + 1 + 1))
          (joined r user k.id (ready r (read s))) in
      let e : (handle_subscribe_alert_threshold b msg m i t s).1.db ≡ d =
        ap (λ o. (with_percentage b msg.chat_id o (from_sender msg m i t) s).1.db) said
        ∙ ap (λ x. (percentage_of b msg.chat_id (from_sender msg m i t) x s).1.db) right
        ∙ ap (λ o. (with_sender b o (subscribe_sender b r) s).1.db) from
        ∙ subscribed r sender user k s known same_name free good market new sound in
      (
        (ready r (read s)).clock (ready r (read s)).calls,
        s.clock (s.calls + 1 + 1 + 1 + 1 + 1 + 1),
        ap (λ x. x.subscriptions) e,
        ap (λ x. x.alerts) e,
      )
