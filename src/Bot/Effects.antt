-- ===== src/Bot/Effects.antt =====
-- What the bot can do to the rows: every run is a sequence of these effects, whatever fails. The limits of
-- /feedback are not part of them.
pub mod Dialogues
pub mod Thresholds
pub mod Alert
pub mod Handlers
pub mod Updates
pub mod Quota
pub mod Frames
pub mod Valid
use poly_notifier.Common.{
  ℕ, ℤ, pos, leb_ℤ, String, ◌==◌, string_eq, ◌≡◌, refl, Bool, true, false, Option, none, some, List,
  Member, find, find-Member, keep, length, is_some, not, ◌&&◌, option_eq, Bool-cases, inl, inr,
  arith,
}
use poly_notifier.Common.Texts.{any_char}
use poly_notifier.Store.Rows.{F64, User, Result, ok, err}
use poly_notifier.Store.World.{
  Db, World, Exec, pure, attempt, ◌>>=◌, ◌>>◌, now, statement, select, select_one, or_no_row,
  execute, ask, telegram_send, telegram_request,
}
use poly_notifier.Store.Triples.{
  Leaves, Triple, Triple-pure, Triple-bind, Triple-attempt, Triple-weaken, Triple-same,
  Triple-before, Triple-select, Triple-select_one, Triple-now, Triple-statement, rows_of_world,
}
use poly_notifier.Store.Users.{
  has_key, insert_user, set_username, fetch_user_by_id, refresh_username, create_user,
  found_or_created, get_or_create_user,
}
use poly_notifier.Store.Markets.{upsert_row, upsert_market}
use poly_notifier.Store.Subscriptions.{is_active_of, count_active_subscriptions}
use poly_notifier.Store.Logs.{insert_feedback_row}
use poly_notifier.Bot.State.{BotDeps, Session, in_world, update_dialogue, DialogueState}
use poly_notifier.Bot.Rows.{
  insert_subscription, insert_alert_row, change_oldest_alert, delete_subscription, set_timezone,
}
use poly_notifier.Bot.Dialogues.{threshold_of}
use poly_notifier.Bot.Handlers.{is_forbidden}

-- A percentage that the bot takes.
abbrev pub IsPercentage : BotDeps → F64 → Type 0
IsPercentage b pct =
    (b.float.le (b.float.number 0) pct ≡ true) × (b.float.le pct (b.float.number 100) ≡ true)

-- The active subscriptions of a user.
abbrev pub active_count : ℤ → Db → ℕ
active_count user_id d = length (keep (is_active_of user_id) d.subscriptions)

pub data Effect (b : BotDeps) : Db → Db → Type 0 where
  create :
      (telegram_id : ℤ) (username : Option String) (at : ℕ) (id : ℤ) (d d' : Db)
      → insert_user telegram_id b.bot_id username at d ≡ ok (id, d')
      → Effect b d d'
  rename :
      (username : Option String) (at : ℕ) (id : ℤ) (d : Db)
      → Effect b d (set_username username at id d).1
  upsert :
      (condition_id question outcomes token_ids : String) (at called : ℕ) (id : ℤ) (d d' : Db)
      → upsert_row condition_id question none outcomes token_ids at called d ≡ ok (id, d')
      → Effect b d d'
  -- a subscription of a user who has fewer than the limit
  subscribe :
      (user : User) (market_id outcome_index : ℤ) (at n : ℕ) (d d' : Db)
      → Member user d.users
      → leb_ℤ user.max_subscriptions (pos (active_count user.id d)) ≡ false
      → insert_subscription user.id market_id outcome_index at d ≡ ok (n, d')
      → Effect b d d'
  alert :
      (subscription_id : ℤ) (alert_type : String) (pct : F64) (at n : ℕ) (d d' : Db)
      → IsPercentage b pct
      → insert_alert_row subscription_id alert_type (threshold_of b pct) at d ≡ ok (n, d')
      → Effect b d d'
  realert :
      (subscription_id : ℤ) (alert_type : String) (pct : F64) (n : ℕ) (d d' : Db)
      → IsPercentage b pct
      → change_oldest_alert subscription_id alert_type (threshold_of b pct) d ≡ ok (n, d')
      → Effect b d d'
  remove : (id : ℤ) (d : Db) → Effect b d (delete_subscription id d).1
  rezone :
      (tz : String) (at : ℕ) (id : ℤ) (d : Db)
      → any_char is_forbidden tz ≡ false
      → Effect b d (set_timezone tz at id d).1
  comment :
      (user_id : ℤ) (body : String) (at : ℕ) (id : ℤ) (d d' : Db)
      → insert_feedback_row user_id body at d ≡ ok (id, d')
      → Effect b d d'

pub data Effects (b : BotDeps) : Db → Db → Type 0 where
  stay : (d : Db) → Effects b d d
  step : (d d' d'' : Db) → Effects b d d' → Effect b d' d'' → Effects b d d''

abbrev pub rows_of_session : Session → Db
rows_of_session s = s.db

module _ {A : Type 0} {P E : Db → Type 0} {Q : A → Db → Type 0} where
  pub Triple-in_world :
      {m : Exec World A} → Triple rows_of_world P m Q E → Triple rows_of_session P (in_world m) Q E
  unfolding in_world
  Triple-in_world h = record { at = λ s. h.at s.world }

module _ (b : BotDeps) (d₀ : Db) where
  -- What the bot can have made of the rows.
  abbrev pub From : Db → Type 0
  From d = Effects b d₀ d

  abbrev pub FromWith : User → Db → Type 0
  FromWith user d = From d × Member user d.users

  -- A statement whose every success is an effect.
  pub effect-Leaves :
      {A : Type 0} (r : Result (A × Db)) (d : Db)
      → From d
      → ((a : A) (d' : Db) → r ≡ ok (a, d') → Effect b d d')
      → Leaves (λ a. From) r
  unfolding Leaves
  effect-Leaves (ok (a, d')) d p e = step d₀ d d' p (e a d' refl)
  effect-Leaves (err x) d p e = tt

  -- What a guard adds to the rows before is used and forgotten.
  pub Triple-effect :
      {A : Type 0} (G : Db → Type 0) (f : ℕ → Db → Result (A × Db))
      → ((at : ℕ) (a : A) (d d' : Db) → G d → f at d ≡ ok (a, d') → Effect b d d')
      → Triple rows_of_world (λ d. From d × G d) (statement f) (λ a. From) From
  Triple-effect G f e =
      Triple-statement f (λ d p. p.0) λ at d p. effect-Leaves (f at d) d p.0 λ a d'. e at a d d' p.1

  set_username-From :
      (username : Option String) (at : ℕ) (id : ℤ)
      → Triple rows_of_world From (execute (set_username username at id)) (λ n. From) From
  unfolding Leaves
  set_username-From username at id =
      Triple-statement _ (λ d p. p) λ called d p. step d₀ d _ p (rename username at id d)

  fetch_user-From : (id : ℤ) → Triple rows_of_world From (fetch_user_by_id id) FromWith From
  unfolding fetch_user_by_id
  fetch_user-From id =
      Triple-weaken (λ u d h. (h.0, find-Member _ d.users u h.1)) (λ d p. p)
        (Triple-select_one From _)

  refreshed :
      (username : Option String) (id : ℤ)
      → Triple rows_of_world From
          (now >>= λ at. execute (set_username username at id) >> fetch_user_by_id id)
          FromWith
          From
  refreshed username id =
      Triple-bind (Triple-now From)
        λ at. Triple-bind (set_username-From username at id) λ n. fetch_user-From id

  refresh_username-From :
      (username : Option String) (user : User)
      → Triple rows_of_world (FromWith user) (refresh_username username user) FromWith From
  unfolding refresh_username
  refresh_username-From username user =
      elim (Bool-cases (is_some username && not (username == user.username))) [
        | inl other ↦ rw other (Triple-before (λ d p. p.0) (refreshed username user.id))
        | inr same ↦ rw same (Triple-pure user λ d p. p)
      ]

  create_user-From :
      (telegram_id : ℤ) (username : Option String)
      → Triple rows_of_world From (create_user telegram_id b.bot_id username) FromWith From
  unfolding create_user
  create_user-From telegram_id username =
      Triple-bind
        (Triple-statement _ (λ d p. p)
          λ at d p.
            effect-Leaves (insert_user telegram_id b.bot_id username at d) d p
              λ id d'. create telegram_id username at id d d')
        λ id. fetch_user-From id

  found_or_created-From :
      (telegram_id : ℤ) (username : Option String) (o : Option User)
      → Triple rows_of_world
          (λ d. From d × (find (has_key telegram_id b.bot_id) d.users ≡ o))
          (found_or_created telegram_id b.bot_id username o)
          FromWith
          From
  unfolding found_or_created
  found_or_created-From telegram_id username none =
      Triple-before (λ d p. p.0) (create_user-From telegram_id username)
  found_or_created-From telegram_id username (some user) =
      Triple-before (λ d p. (p.0, find-Member _ d.users user p.1))
        (refresh_username-From username user)

  pub get_or_create_user-From :
      (telegram_id : ℤ) (username : Option String)
      → Triple rows_of_world From (get_or_create_user telegram_id b.bot_id username) FromWith From
  unfolding get_or_create_user
  get_or_create_user-From telegram_id username =
      Triple-bind (Triple-select From _) λ o. found_or_created-From telegram_id username o
