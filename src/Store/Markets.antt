-- ===== src/Store/Markets.antt =====
-- crates/pn-common/src/db.rs, the helpers on the `markets` table.
use poly_notifier.Common.{
  ℕ, ◌+◌, ℤ, pos, String, ◌==◌, int_eq, string_eq, true, Option, none, some, [], ◌∷◌, ◌++◌, find,
  keep, length, change_where,
}
use poly_notifier.Store.Rows.{Market, Result, ok}
use poly_notifier.Store.World.{Db, World, Exec, pure, ◌>>=◌, ◌>>◌, now, statement, select, execute}
use poly_notifier.Store.Users.{sql_now}

abbrev new_market : ℕ → String → String → Option String → String → String → ℕ → ℕ → Market
new_market id condition_id question slug outcomes token_ids created updated = record {
  id = pos id;
  condition_id = condition_id;
  question = question;
  slug = slug;
  outcomes = outcomes;
  token_ids = token_ids;
  last_prices = "[]";
  is_active = true;
  created_at = created;
  updated_at = updated;
}

-- The SET list of ON CONFLICT(condition_id) DO UPDATE.
abbrev pub refreshed : String → Option String → String → String → ℕ → Market → Market
refreshed question slug outcomes token_ids at m = record m {
  question = question;
  slug = slug;
  outcomes = outcomes;
  token_ids = token_ids;
  is_active = true;
  updated_at = at;
}

-- INSERT INTO markets ... ON CONFLICT(condition_id) DO UPDATE ... RETURNING id
unfoldable pub upsert_row :
    String → String → Option String → String → String → ℕ → ℕ → Db → Result (ℤ × Db)
upsert_row condition_id question slug outcomes token_ids at called d =
    elim (find (λ m. m.condition_id == condition_id) d.markets) [
      | some m ↦ ok (
        m.id,
        record d {
          markets =
              change_where (λ k. k.condition_id == condition_id)
                (refreshed question slug outcomes token_ids at) d.markets;
        },
      )
      | none ↦ ok (
        pos d.next_market,
        record d {
          markets =
              d.markets
              ++ new_market d.next_market condition_id question slug outcomes token_ids
                  (sql_now called) at
                ∷ [];
          next_market = d.next_market + 1;
        },
      )
    ]

unfoldable pub upsert_market : String → String → Option String → String → String → Exec World ℤ
unfolding upsert_row
upsert_market condition_id question slug outcomes_json token_ids_json = do
  at ← now
  statement (upsert_row condition_id question slug outcomes_json token_ids_json at)

unfoldable get_market_by_condition_id : String → Exec World (Option Market)
get_market_by_condition_id condition_id =
    select (λ d. find (λ m. m.condition_id == condition_id) d.markets)

-- UPDATE markets SET last_prices = ?, updated_at = ? WHERE id = ?
abbrev pub set_last_prices : String → ℕ → ℤ → Db → ℕ × Db
set_last_prices prices at id d = (
  length (keep (λ m. m.id == id) d.markets),
  record d {
    markets =
        change_where (λ m. m.id == id) (λ m. record m { last_prices = prices; updated_at = at })
          d.markets;
  },
)

unfoldable pub update_market_prices : ℤ → String → Exec World (Unit {0})
update_market_prices market_id last_prices_json = do
  at ← now
  execute (set_last_prices last_prices_json at market_id)
  pure tt
