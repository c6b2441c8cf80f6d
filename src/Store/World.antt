-- ===== src/Store/World.antt =====
-- What the services share: the database, the clock, the Telegram API and the notification channel.
-- Each call of one of these is numbered, and the environment settles the outcome of every number,
-- so a statement about all environments covers all failures and all clock readings.
use poly_notifier.Common.{
  ℕ, ◌+◌, ℤ, String, Bool, Option, none, some, List, [], ◌∷◌, ◌++◌, if◌then◌else◌,
}
use poly_notifier.Store.Rows.{
  User, Market, Subscription, Alert, NotificationLog, Feedback, NotificationRequest, Result, ok,
  err, database, other,
}

-- The tables in row order, and the sequences that AUTOINCREMENT draws ids from.
pub record Db : Type 0 where
  pub users : List User
  pub markets : List Market
  pub subscriptions : List Subscription
  pub alerts : List Alert
  pub notification_log : List NotificationLog
  pub feedback : List Feedback
  pub next_user : ℕ
  pub next_market : ℕ
  pub next_subscription : ℕ
  pub next_alert : ℕ
  pub next_log : ℕ
  pub next_feedback : ℕ

abbrev pub empty_db : Db
empty_db = record {
  users = [];
  markets = [];
  subscriptions = [];
  alerts = [];
  notification_log = [];
  feedback = [];
  next_user = 1;
  next_market = 1;
  next_subscription = 1;
  next_alert = 1;
  next_log = 1;
  next_feedback = 1;
}

-- The outcome of the call with a given number, if it is a call of that kind.
pub record Env : Type 0 where
  -- Utc::now(), in nanoseconds
  pub clock : ℕ → ℕ
  -- the error of a statement that the database refuses for reasons of its own
  pub db_fault : ℕ → Option String
  -- the error of a Telegram request
  pub telegram_fault : ℕ → Option String
  -- whether the receiver of the notification channel is still there
  pub channel_open : ℕ → Bool

-- A message that Telegram accepted.
pub record Sent : Type 0 where
  pub bot_id : String
  pub chat_id : ℤ
  pub text : String

pub record World : Type 0 where
  pub env : Env
  pub open env use *
  pub calls : ℕ
  pub db : Db
  pub open db use *
  pub sent : List Sent
  pub queue : List NotificationRequest

abbrev pub Exec {ℓ κ} : Type ℓ → Type κ → Type (ℓ ⊔ κ)
Exec S A = S → Result A × S

module _ {ℓ κ} {S : Type ℓ} {A : Type κ} where
  pub pure : A → Exec S A
  pure a s = (ok a, s)

  -- The outcome as a value: `match` or `if let Err(e)` on a result.
  pub attempt : Exec S A → Exec S (Result A)
  attempt m s = let (r, s') = m s in (ok r, s')

  abbrev pub continue {μ} : {B : Type μ} → Result A → (A → Exec S B) → Exec S B
  continue (ok a) f s = f a s
  continue (err e) f s = (err e, s)

  infixl 5 ◌>>=◌ ◌>>◌
  -- `?` and `.await?`. To open this is to open `pure` and `attempt` too.
  unfoldable pub ◌>>=◌ {μ} : {B : Type μ} → Exec S A → (A → Exec S B) → Exec S B
  unfolding pure attempt
  ◌>>=◌ m f s = let (r, s') = m s in continue r f s'

  abbrev pub ◌>>◌ {μ} : {B : Type μ} → Exec S A → Exec S B → Exec S B
  m >> n = m >>= λ _. n

abbrev pub tick : World → World
tick w = record w { calls = w.calls + 1 }

-- Utc::now().naive_utc()
unfoldable pub now : Exec World ℕ
now w = (ok (w.clock w.calls), tick w)

abbrev pub settle {ℓ} : {A : Type ℓ} → Result (A × Db) → World → Result A × World
settle (err e) w = (err e, w)
settle (ok (a, d)) w = (ok a, record w { db = d })

-- A statement sees the time of its call. It fails by the environment or by what the query says of
-- constraints and missing rows, and then changes no row.
unfoldable pub statement {ℓ} : {A : Type ℓ} → (ℕ → Db → Result (A × Db)) → Exec World A
statement f w = elim (w.db_fault w.calls) [
  | some e ↦ (err (database e), tick w)
  | none ↦ settle (f (w.clock w.calls) w.db) (tick w)
]

-- A query that returns rows and changes none: fetch_all, fetch_optional.
abbrev pub select {ℓ} : {A : Type ℓ} → (Db → A) → Exec World A
select q = statement (λ _ d. ok (q d, d))

abbrev pub or_no_row {ℓ} : {A : Type ℓ} → Db → Option A → Result (A × Db)
or_no_row d none = err (database "no rows returned")
or_no_row d (some a) = ok (a, d)

-- fetch_one, which fails without a row.
abbrev pub select_one {ℓ} : {A : Type ℓ} → (Db → Option A) → Exec World A
select_one q = statement (λ _ d. or_no_row d (q d))

-- An UPDATE or DELETE, with its rows_affected.
abbrev pub execute : (Db → ℕ × Db) → Exec World ℕ
execute f = statement (λ _ d. ok (f d))

-- teloxide's send_message
unfoldable pub telegram_send : String → ℤ → String → Exec World (Unit {0})
telegram_send bot_id chat_id text w = elim (w.telegram_fault w.calls) [
  | some e ↦ (err (other e), tick w)
  | none ↦ (
    ok tt,
    record (tick w) {
      sent = w.sent ++ record { bot_id = bot_id; chat_id = chat_id; text = text } ∷ [];
    },
  )
]

-- mpsc::Sender::send, which fails when the receiver is gone
unfoldable pub enqueue : NotificationRequest → Exec World (Unit {0})
enqueue r w =
    if w.channel_open w.calls
    then (ok tt, record (tick w) { queue = w.queue ++ r ∷ [] })
    else (err (other "channel closed"), tick w)

-- A Telegram request that sends no message, such as answer_callback_query.
unfoldable pub telegram_request : Exec World (Unit {0})
telegram_request w = elim (w.telegram_fault w.calls) [
  | some e ↦ (err (other e), tick w)
  | none ↦ (ok tt, tick w)
]

-- A question to a web service, which answers by the number of the call.
unfoldable pub ask {ℓ} : {A : Type ℓ} → (ℕ → Result A) → Exec World A
ask answer w = (answer w.calls, tick w)
