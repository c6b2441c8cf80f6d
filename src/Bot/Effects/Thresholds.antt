-- ===== src/Bot/Effects/Thresholds.antt =====
-- dialogues.rs: the handlers that take a percentage do only what the bot may do to the rows.
use poly_notifier.Common.{
  ℕ, zero, suc, ℤ, pos, leb_ℤ, String, ◌==◌, string_eq, ◌≡◌, refl, false, Option, none, some,
  Member, Bool-cases, Option-cases, inl, inr, length, keep, find, sym, ap, ◌∙◌,
}
use mathlib.Core.Path.{subst}
use poly_notifier.Common.Texts.{trim}
use poly_notifier.Store.Rows.{F64, User, Subscription, Result, ok, err}
use poly_notifier.Store.World.{Db, Exec, statement}
use poly_notifier.Store.Triples.{
  After, Leaves, Triple, Triple-bind, Triple-attempt, Triple-weaken, Triple-before,
  Triple-statement, Triple-select, Triple-now, rows_of_world,
}
use poly_notifier.Store.Markets.{upsert_row, upsert_market}
use poly_notifier.Store.Subscriptions.{is_active_of, count_active_subscriptions}
use poly_notifier.Bot.State.{MarketOption, Sender, Message, BotDeps, Session, in_world}
use poly_notifier.Bot.Rows.{insert_subscription, insert_alert_row}
use poly_notifier.Bot.Dialogues.{
  Percentage, valid, out_of_range, invalid, percentage_of, with_percentage, read_percentage, ranged,
  with_sender, threshold_of,
}
use poly_notifier.Bot.Dialogues.Subscribe.{
  Wish, finish, first_alert, inserted_subscription, create_subscription, within_quota,
  subscribe_sender, handle_subscribe_alert_threshold,
}
use poly_notifier.Bot.Effects.{
  Effect, subscribe, alert, upsert, step, IsPercentage, active_count, rows_of_session,
  Triple-in_world, From, FromWith, Triple-effect, get_or_create_user-From,
}
use poly_notifier.Bot.Effects.Dialogues.{Triple-say, Triple-update, Stays, done, attempt-Stays}

module _ (b : BotDeps) (d₀ : Db) where
  abbrev F : Db → Type 0
  F = From b d₀

  finish-Stays : (chat : ℤ) (text : String) → Stays b d₀ (finish b chat text)
  unfolding finish
  finish-Stays chat text = Triple-bind (Triple-say b F chat text) λ a. Triple-update b F chat _

  pub insert_alert-effect :
      (subscription_id : ℤ) (t : String) (pct : F64)
      → IsPercentage b pct
      → Stays b d₀ (in_world (statement (insert_alert_row subscription_id t (threshold_of b pct))))
  insert_alert-effect subscription_id t pct h = Triple-in_world (
      Triple-before (λ d p. (p, tt {0}))
        (Triple-effect b d₀ (λ d. Unit) _
          λ at n d d' g e. alert subscription_id t pct at n d d' h e))

  first_alert-Stays :
      (r : Wish b) (o : Option Subscription) → IsPercentage b r.pct → Stays b d₀ (first_alert b r o)
  unfolding first_alert
  first_alert-Stays r none h = finish-Stays r.chat _
  first_alert-Stays r (some s) h =
      Triple-bind (attempt-Stays b d₀ (insert_alert-effect s.id r.alert_type r.pct h))
        λ n. finish-Stays r.chat _

  inserted_subscription-Stays :
      (r : Wish b) (user_id market_id : ℤ) (n : Result ℕ)
      → IsPercentage b r.pct
      → Stays b d₀ (inserted_subscription b r user_id market_id n)
  unfolding inserted_subscription
  inserted_subscription-Stays r user_id market_id (err e) h = finish-Stays r.chat _
  inserted_subscription-Stays r user_id market_id (ok zero) h = finish-Stays r.chat _
  inserted_subscription-Stays r user_id market_id (ok (suc n)) h =
      Triple-bind (Triple-weaken (λ o d p. p.0) (λ d p. p) (Triple-in_world (Triple-select F _)))
        λ o. first_alert-Stays r o h

  -- A user who has fewer subscriptions than the limit.
  abbrev Below : User → Db → Type 0
  Below user d =
      Member user d.users × (leb_ℤ user.max_subscriptions (pos (active_count user.id d)) ≡ false)

  abbrev FromBelow : User → Db → Type 0
  FromBelow user d = F d × Below user d

  -- An upsert of a market touches no user and no subscription.
  upsert-rows :
      (c question outcomes token_ids : String) (at called : ℕ) (d : Db)
      → Leaves
          (λ id d'. (d'.users ≡ d.users) × (d'.subscriptions ≡ d.subscriptions))
          (upsert_row c question none outcomes token_ids at called d)
  unfolding Leaves upsert_row
  upsert-rows c question outcomes token_ids at called d =
      elim (Option-cases (find (λ m. m.condition_id == c) d.markets)) [
        | inl new ↦ rw (new, Leaves) (refl, refl)
        | inr (m, known) ↦ rw (known, Leaves) (refl, refl)
      ]

  below-Leaves :
      (user : User) (r : Result (ℤ × Db)) (d : Db)
      → FromBelow user d
      → ((id : ℤ) (d' : Db) → r ≡ ok (id, d') → Effect b d d')
      → Leaves (λ id d'. (d'.users ≡ d.users) × (d'.subscriptions ≡ d.subscriptions)) r
      → Leaves (λ id. FromBelow user) r
  unfolding Leaves
  below-Leaves user (ok (id, d')) d p e same = (
    step d₀ d d' p.0 (e id d' refl),
    (
      subst (Member user) (sym same.0) p.1.0,
      ap (λ rows. leb_ℤ user.max_subscriptions (pos (length (keep (is_active_of user.id) rows))))
            same.1
          ∙ p.1.1,
    ),
  )
  below-Leaves user (err x) d p e same = tt

  upsert_market-FromBelow :
      (user : User) (c question outcomes token_ids : String)
      → Triple rows_of_world
          (FromBelow user)
          (upsert_market c question none outcomes token_ids)
          (λ id. FromBelow user)
          F
  unfolding upsert_market
  upsert_market-FromBelow user c question outcomes token_ids =
      Triple-bind (Triple-weaken (λ a d p. p) (λ d p. p.0) (Triple-now (FromBelow user))) λ at.
        Triple-statement _ (λ d p. p.0)
          λ called d p.
            below-Leaves user _ d p
              (λ id d'. upsert c question outcomes token_ids at called id d d')
              (upsert-rows c question outcomes token_ids at called d)

  insert_subscription-effect :
      (user : User) (market_id outcome_index : ℤ)
      → Triple rows_of_world
          (FromBelow user)
          (statement (insert_subscription user.id market_id outcome_index))
          (λ n. F)
          F
  insert_subscription-effect user market_id outcome_index =
      Triple-effect b d₀ (Below user) _
        λ at n d d' g e. subscribe user market_id outcome_index at n d d' g.0 g.1 e

  settled : {A : Type 0} (r : Result A) (d : Db) → After (λ a. F) F r d → F d
  unfolding After
  settled (ok a) d p = p
  settled (err e) d p = p

  create_subscription-From :
      (r : Wish b) (user : User)
      → IsPercentage b r.pct
      → Triple rows_of_session (FromBelow user) (create_subscription b r user) (λ a. F) F
  unfolding create_subscription
  create_subscription-From r user h =
      Triple-bind (Triple-in_world (upsert_market-FromBelow user _ _ _ _)) λ market_id.
        Triple-bind
          (Triple-weaken settled (λ d p. p)
            (Triple-attempt (Triple-in_world (insert_subscription-effect user market_id _))))
          λ n. inserted_subscription-Stays r user.id market_id n h

  within_quota-From :
      (r : Wish b) (user : User) (n : ℕ)
      → IsPercentage b r.pct
      → Triple rows_of_session
          (λ d. FromWith b d₀ user d × (active_count user.id d ≡ n))
          (within_quota b r user n)
          (λ a. F)
          F
  unfolding within_quota
  within_quota-From r user n h = elim (Bool-cases (leb_ℤ user.max_subscriptions (pos n))) [
    | inl full ↦ rw full (Triple-before (λ d p. p.0.0) (finish-Stays r.chat _))
    | inr free ↦ rw free (
        Triple-before
          (λ d p. (p.0.0, (p.0.1, ap (λ k. leb_ℤ user.max_subscriptions (pos k)) p.1 ∙ free)))
          (create_subscription-From r user h))
  ]

  subscribe_sender-Stays :
      (r : Wish b) (sender : Sender)
      → IsPercentage b r.pct
      → Stays b d₀ (subscribe_sender b r sender)
  unfolding subscribe_sender count_active_subscriptions
  subscribe_sender-Stays r sender h =
      Triple-bind (Triple-in_world (get_or_create_user-From b d₀ _ sender.username)) λ user.
        Triple-bind
          (Triple-weaken (λ n d p. p) (λ d p. p.0)
            (Triple-in_world (Triple-select (FromWith b d₀ user) (active_count user.id))))
          λ n. within_quota-From r user n h

  -- What is read of a text is a percentage.
  abbrev Right : Percentage → Type 0
  Right (valid pct) = IsPercentage b pct
  Right out_of_range = Unit
  Right invalid = Unit

  ranged-Right : (o : Option F64) → Right (ranged b.float o)
  ranged-Right none = tt
  ranged-Right (some p) = elim (Bool-cases (b.float.le (b.float.number 0) p)) [
    | inl low ↦ elim (Bool-cases (b.float.le p (b.float.number 100))) [
      | inl high ↦ rw (low, high) (low, high)
      | inr above ↦ rw (low, above) tt
    ]
    | inr under ↦ rw under tt
  ]

  percentage_of-Stays :
      (chat : ℤ) (f : F64 → Exec Session (Unit {0})) (x : Percentage)
      → Right x
      → ((pct : F64) → IsPercentage b pct → Stays b d₀ (f pct))
      → Stays b d₀ (percentage_of b chat f x)
  unfolding percentage_of
  percentage_of-Stays chat f (valid pct) r h = h pct r
  percentage_of-Stays chat f out_of_range r h = Triple-say b F chat _
  percentage_of-Stays chat f invalid r h = Triple-say b F chat _

  pub with_percentage-Stays :
      (chat : ℤ) (o : Option String) (f : F64 → Exec Session (Unit {0}))
      → ((pct : F64) → IsPercentage b pct → Stays b d₀ (f pct))
      → Stays b d₀ (with_percentage b chat o f)
  unfolding with_percentage read_percentage
  with_percentage-Stays chat none f h = Triple-say b F chat _
  with_percentage-Stays chat (some text) f h =
      percentage_of-Stays chat f _ (ranged-Right (b.float.parse_f64 (trim text))) h

  pub with_sender-Stays :
      (o : Option Sender) (f : Sender → Exec Session (Unit {0}))
      → ((sender : Sender) → Stays b d₀ (f sender))
      → Stays b d₀ (with_sender b o f)
  with_sender-Stays none f h = done b d₀
  with_sender-Stays (some sender) f h = h sender

  pub handle_subscribe_alert_threshold-Stays :
      (msg : Message) (m : MarketOption) (i : ℤ) (t : String)
      → Stays b d₀ (handle_subscribe_alert_threshold b msg m i t)
  unfolding handle_subscribe_alert_threshold
  handle_subscribe_alert_threshold-Stays msg m i t =
      with_percentage-Stays msg.chat_id msg.text _ λ pct h. with_sender-Stays msg.from _ λ sender.
        subscribe_sender-Stays
          (record { chat = msg.chat_id; market = m; outcome_index = i; alert_type = t; pct = pct })
          sender h
