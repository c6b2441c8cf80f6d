-- ===== src/Bot/Subscribing.antt =====
-- Running a handler step by step where the database has no fault.
pub mod Success
use mathlib.Core.Path.{subst}
use poly_notifier.Common.{
  ℕ, zero, suc, ◌+◌, ℤ, pos, leb_ℤ, int_eq, int_beq_iff, beq_refl, String, ◌==◌, string_eq, ◌≡◌,
  refl, sym, ap, ◌∙◌, Bool, true, false, not, ◌&&◌, ◌||◌, Option, is_some, option_eq, none, some,
  List, [], ◌∷◌, ◌++◌, find, any, keep, length, change_where, arith, Bool-cases, Option-cases, inl,
  inr, find-any, if◌then◌else◌,
}
use poly_notifier.Common.Int.{as_i64}
use poly_notifier.Common.Texts.{trim}
use poly_notifier.Store.Rows.{F64, User, Market, Subscription, Alert, Result, ok, err}
use poly_notifier.Store.World.{
  Db, World, Exec, pure, attempt, continue, ◌>>=◌, ◌>>◌, statement, select, settle, tick, now,
}
use poly_notifier.Store.Users.{has_key, get_or_create_user, found_or_created, refresh_username}
use poly_notifier.Store.Markets.{upsert_row, upsert_market, refreshed}
use poly_notifier.Store.Subscriptions.{count_active_subscriptions}
use poly_notifier.Store.Logs.{has_user}
use poly_notifier.Store.Triples.{After, Triple, Triple-bind}
use poly_notifier.Bot.State.{MarketOption, Sender, Message, BotDeps, Session, in_world}
use poly_notifier.Bot.Rows.{
  insert_subscription, insert_alert_row, find_subscription, is_for, is_alert_type, new_subscription,
  new_alert,
}
use poly_notifier.Bot.Dialogues.{
  valid, read_percentage, with_percentage, percentage_of, threshold_of, with_sender,
}
use poly_notifier.Bot.Dialogues.Subscribe.{
  Wish, finish, first_alert, inserted_subscription, create_subscription, within_quota,
  subscribe_sender, handle_subscribe_alert_threshold,
}
use poly_notifier.Bot.Effects.{rows_of_session, active_count}
use poly_notifier.Bot.Effects.Dialogues.{Triple-say, Triple-update}

-- The session after a statement that left some rows.
abbrev pub put : Db → Session → Session
put d s = record s { world = record (tick s.world) { db = d } }

pub stated :
    {A : Type 0} (f : ℕ → Db → Result (A × Db)) (s : Session) (a : A) (d : Db)
    → s.db_fault s.calls ≡ none
    → f (s.clock s.calls) s.db ≡ ok (a, d)
    → in_world (statement f) s ≡ (ok a, put d s)
unfolding in_world statement
stated f s a d sound e =
    rw (sound, statement)
      (ap (λ r. ((settle r (tick s.world)).0, record s { world = (settle r (tick s.world)).1 })) e)

-- The sender has no user name, or the one that the row has.
abbrev pub HasSameName : Option String → User → Type 0
HasSameName username user = (is_some username && not (username == user.username)) ≡ false

pub known_user :
    (telegram_id : ℤ) (bot_id : String) (username : Option String) (user : User) (s : Session)
    → s.db_fault s.calls ≡ none
    → find (has_key telegram_id bot_id) s.users ≡ some user
    → HasSameName username user
    → in_world (get_or_create_user telegram_id bot_id username) s ≡ (ok user, put s.db s)
unfolding in_world get_or_create_user ◌>>=◌ statement found_or_created refresh_username
known_user telegram_id bot_id username user s sound known same =
    rw (sound, statement) (rw known (rw same refl))

pub any-change_where :
    {A : Type 0} (p q : A → Bool) (f : A → A) (xs : List A)
    → ((x : A) → p (f x) ≡ p x)
    → any p (change_where q f xs) ≡ any p xs
any-change_where p q f [] h = refl
any-change_where p q f (x ∷ xs) h = elim (Bool-cases (q x)) [
  | inl in_it ↦ rw (in_it, h x, any-change_where p q f xs h) refl
  | inr out ↦ rw (out, any-change_where p q f xs h) refl
]

-- The rows after the upsert of a known market.
abbrev pub updated : MarketOption → String → String → ℕ → Db → Db
updated m outcomes token_ids at d = record d {
  markets =
      change_where (λ k. k.condition_id == m.condition_id)
        (refreshed m.question none outcomes token_ids at) d.markets;
}

known_row :
    (m : MarketOption) (outcomes token_ids : String) (at called : ℕ) (k : Market) (d : Db)
    → find (λ k. k.condition_id == m.condition_id) d.markets ≡ some k
    → upsert_row m.condition_id m.question none outcomes token_ids at called d
      ≡ ok (k.id, updated m outcomes token_ids at d)
unfolding upsert_row
known_row m outcomes token_ids at called k d known = rw (known, upsert_row) refl

pub upserted :
    (m : MarketOption) (outcomes token_ids : String) (k : Market) (s : Session)
    → s.db_fault (s.calls + 1) ≡ none
    → find (λ k. k.condition_id == m.condition_id) s.markets ≡ some k
    → in_world (upsert_market m.condition_id m.question none outcomes token_ids) s
      ≡ (ok k.id, put (updated m outcomes token_ids (s.clock s.calls) s.db) (put s.db s))
unfolding in_world upsert_market ◌>>=◌ statement now upsert_row
upserted m outcomes token_ids k s sound known =
    rw (sound, statement)
      (ap
        (λ r. (
          (settle r (tick (tick s.world))).0,
          record s { world = (settle r (tick (tick s.world))).1 },
        ))
        (known_row m outcomes token_ids (s.clock s.calls) (s.clock (s.calls + 1)) k s.db known))

no_hit : (p q : Bool) → p || q ≡ false → p ≡ true → ⊥
no_hit p q h k = ground (arith, h, k)

pub find-append :
    {A : Type 0} (p : A → Bool) (xs : List A) (x : A)
    → any p xs ≡ false
    → p x ≡ true
    → find p (xs ++ x ∷ []) ≡ some x
find-append p [] x h k = rw k refl
find-append p (y ∷ xs) x h k = elim (Bool-cases (p y)) [
  | inl hit ↦ elim (no_hit (p y) (any p xs) h hit) [ ]
  | inr miss ↦ rw miss (find-append p xs x (ground (arith, h, miss)) k)
]

pub any-append_last :
    {A : Type 0} (p : A → Bool) (xs : List A) (x : A) → p x ≡ true → any p (xs ++ x ∷ []) ≡ true
any-append_last p [] x k = rw k refl
any-append_last p (y ∷ xs) x k = rw (any-append_last p xs x k) (ground arith)

pub any-both :
    {A : Type 0} (p q : A → Bool) (xs : List A)
    → any p xs ≡ false
    → any (λ x. p x && q x) xs ≡ false
any-both p q [] h = refl
any-both p q (x ∷ xs) h = ground (arith, h, any-both p q xs)
