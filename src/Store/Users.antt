-- ===== src/Store/Users.antt =====
-- crates/pn-common/src/db.rs, the helpers on the `users` table.
use poly_notifier.Common.{
  ℕ, ◌+◌, ◌-◌, ◌%◌, ℤ, pos, String, ◌==◌, int_eq, string_eq, option_eq, Bool, not, ◌&&◌, Option,
  none, some, List, [], ◌∷◌, ◌++◌, if◌then◌else◌, is_some, find, any, keep, length, change_where,
  order_by, ltb_ℤ,
}
use mathlib.Core.Option
use poly_notifier.Store.Rows.{User, Result, ok, err, database}
use poly_notifier.Store.World.{
  Db, World, Exec, pure, ◌>>=◌, ◌>>◌, now, statement, select, select_one, execute,
}

-- WHERE telegram_id = ? AND bot_id = ?
abbrev pub has_key : ℤ → String → User → Bool
has_key telegram_id bot_id u = (u.telegram_id == telegram_id) && (u.bot_id == bot_id)

-- datetime('now'), which has whole seconds
abbrev pub sql_now : ℕ → ℕ
sql_now at = at - at % 1_000_000_000

-- A row with the defaults of migrations/001_create_users.sql.
abbrev pub new_user : ℤ → ℤ → String → Option String → ℕ → User
new_user id telegram_id bot_id username at = record {
  id = id;
  telegram_id = telegram_id;
  bot_id = bot_id;
  username = username;
  tier = "free";
  max_subscriptions = pos 5;
  timezone = "UTC";
  created_at = sql_now at;
  updated_at = sql_now at;
}

-- INSERT INTO users, under UNIQUE(telegram_id, bot_id), with last_insert_rowid().
unfoldable pub insert_user : ℤ → String → Option String → ℕ → Db → Result (ℤ × Db)
insert_user telegram_id bot_id username at d =
    if any (has_key telegram_id bot_id) d.users
    then err (database "UNIQUE constraint failed: users.telegram_id, users.bot_id")
    else ok (
      pos d.next_user,
      record d {
        users = d.users ++ new_user (pos d.next_user) telegram_id bot_id username at ∷ [];
        next_user = d.next_user + 1;
      },
    )

-- UPDATE users SET username = ?, updated_at = ? WHERE id = ?
unfoldable pub set_username : Option String → ℕ → ℤ → Db → ℕ × Db
set_username username at id d = (
  length (keep (λ u. u.id == id) d.users),
  record d {
    users =
        change_where (λ u. u.id == id) (λ u. record u { username = username; updated_at = at })
          d.users;
  },
)

unfoldable pub fetch_user_by_id : ℤ → Exec World User
fetch_user_by_id id = select_one (λ d. find (λ u. u.id == id) d.users)

-- The opportunistic update of a row that was found.
unfoldable pub refresh_username : Option String → User → Exec World User
unfolding set_username fetch_user_by_id
refresh_username username user =
    if is_some username && not (username == user.username)
    then (do at ← now; execute (set_username username at user.id); fetch_user_by_id user.id)
    else pure user

unfoldable pub create_user : ℤ → String → Option String → Exec World User
unfolding insert_user fetch_user_by_id
create_user telegram_id bot_id username = do
  id ← statement (insert_user telegram_id bot_id username)
  fetch_user_by_id id

unfoldable pub found_or_created : ℤ → String → Option String → Option User → Exec World User
unfolding refresh_username create_user
found_or_created telegram_id bot_id username (some user) = refresh_username username user
found_or_created telegram_id bot_id username none = create_user telegram_id bot_id username

unfoldable pub get_or_create_user : ℤ → String → Option String → Exec World User
unfolding found_or_created
get_or_create_user telegram_id bot_id username = do
  existing ← select (λ d. find (has_key telegram_id bot_id) d.users)
  found_or_created telegram_id bot_id username existing

unfoldable get_all_users : Exec World (List User)
get_all_users = select (λ d. order_by (λ a b. ltb_ℤ a.id b.id) d.users)

-- SELECT id FROM users WHERE telegram_id = ? LIMIT 1
unfoldable pub resolve_user_id_by_telegram : ℤ → Exec World (Option ℤ)
resolve_user_id_by_telegram telegram_id = do
  row ← select (λ d. find (λ u. u.telegram_id == telegram_id) d.users)
  pure (Option.map (λ u. u.id) row)
