-- ===== src/Admin/Handlers.antt =====
-- crates/pn-admin/src/handlers.rs: the updates of a user's tier and limit, and the list of the users.
pub mod Valid
pub mod Reports
use poly_notifier.Common.{
  ℕ, zero, suc, ℤ, pos, String, ◌==◌, int_eq, string_eq, ◌<>◌, Bool, ◌&&◌, ◌||◌, List, [], ◌∷◌, map,
  keep, length, change_where, order_by, ltb_ℤ, if◌then◌else◌,
}
use poly_notifier.Store.Rows.{User, Subscription, Error, Result, ok, err}
use poly_notifier.Store.World.{Db, World, now, execute, select, ◌>>=◌}
use poly_notifier.Store.Subscriptions.{is_active_of}

-- The response, by its status: 200, 422, 404 and 500.
pub data Response {ℓ} (A : Type ℓ) : Type ℓ where
  json : A → Response A
  unprocessable_entity not_found : String → Response A
  db_error : Error → Response A

-- matches!(tier, "free" | "premium" | "unlimited")
abbrev pub is_tier : String → Bool
is_tier t = (t == "free") || ((t == "premium") || (t == "unlimited"))

abbrev pub of_user : ℤ → User → Bool
of_user telegram_id u = u.telegram_id == telegram_id

-- UPDATE users SET ... WHERE telegram_id = ?, with rows_affected
abbrev pub change_users : ℤ → (User → User) → Db → ℕ × Db
change_users telegram_id f d = (
  length (keep (of_user telegram_id) d.users),
  record d { users = change_where (of_user telegram_id) f d.users },
)

-- The response to the outcome of an update.
unfoldable pub answer {ℓ} : {A : Type ℓ} → A → Result ℕ → Response A
answer body (err e) = db_error e
answer body (ok zero) = not_found "user not found"
answer body (ok (suc n)) = json body

unfoldable pub put {ℓ} : {A : Type ℓ} → A → ℤ → (ℕ → User → User) → World → Response A × World
unfolding answer
put body telegram_id f w =
    let (r, w') = (now >>= λ at. execute (change_users telegram_id (f at))) w in (answer body r, w')

-- str::to_lowercase is a parameter.
unfoldable pub update_tier : (String → String) → ℤ → String → World → Response (ℤ × String) × World
unfolding put
update_tier to_lowercase telegram_id body w =
    let tier = to_lowercase body in
    if is_tier tier
    then put (telegram_id, tier) telegram_id (λ at u. record u { tier = tier; updated_at = at }) w
    else (unprocessable_entity ("invalid tier " <> tier), w)

unfoldable pub update_limit : ℤ → ℤ → World → Response (ℤ × ℤ) × World
unfolding put
update_limit telegram_id max_subscriptions w =
    if ltb_ℤ max_subscriptions (pos 0)
    then (unprocessable_entity "max_subscriptions must be non-negative", w)
    else put (telegram_id, max_subscriptions) telegram_id
        (λ at u. record u { max_subscriptions = max_subscriptions; updated_at = at }) w

pub record UserListEntry : Type 0 where
  pub user : User
  pub subscription_count : ℕ

abbrev pub entry_of : Db → User → UserListEntry
entry_of d u = record {
  user = u;
  subscription_count = length (keep (is_active_of u.id) d.subscriptions);
}

abbrev pub list_answer {ℓ} : {A : Type ℓ} → Result A → Response A
list_answer (ok rows) = json rows
list_answer (err e) = db_error e

-- LEFT JOIN subscriptions, both active, GROUP BY and ORDER BY u.id
unfoldable pub list_users : World → Response (List UserListEntry) × World
list_users w =
    let (r, w') = select (λ d. map (entry_of d) (order_by (λ a b. ltb_ℤ a.id b.id) d.users)) w in
    (list_answer r, w')
