-- ===== src/Scheduler/Summary.antt =====
-- crates/pn-scheduler/src/daily_summary.rs: the rows of the summary, their groups and the message of a
-- user. The JSON of serde, f64 and chrono's formatting are parameters.
pub mod Groups
use poly_notifier.Common.{
  ℕ, ◌+◌, ℤ, ◌==◌, int_eq, String, ◌<>◌, Bool, ◌&&◌, Option, none, some, List, [], ◌∷◌, ◌++◌, map,
  keep, order_by, flat_map, ltb_ℤ, get_elem?,
}
use poly_notifier.Common.Int.{as_usize}
use poly_notifier.Common.Dict.{Dict, get, insert}
use poly_notifier.Common.Texts.{join}
use poly_notifier.Common.Numerals.{show_ℕ, show_ℤ}
use poly_notifier.Store.Rows.{F64, User, Market, Subscription, Result, ok, err, other}
use poly_notifier.Store.World.{Db}
use poly_notifier.Interfaces.{JsonOps}
use poly_notifier.Polymarket.Http.{required}

pub record SummaryOps : Type 0 where
  pub json : JsonOps
  -- serde_json::from_str to a list of f64
  pub parse_floats : String → Option (List F64)
  -- the literal 0.0
  pub zero_price : F64
  -- {:.2}
  pub show_cents : F64 → String
  -- chrono's format("%Y-%m-%d %H:%M UTC")
  pub format_minute : ℕ → String

pub record SummaryRow : Type 0 where
  pub user_id : ℤ
  pub telegram_id : ℤ
  pub bot_id : String
  pub outcome_index : ℤ
  pub question : String
  pub outcomes : String
  pub last_prices : String

abbrev pub row_of : User → Subscription → Market → SummaryRow
row_of u s m = record {
  user_id = u.id;
  telegram_id = u.telegram_id;
  bot_id = u.bot_id;
  outcome_index = s.outcome_index;
  question = m.question;
  outcomes = m.outcomes;
  last_prices = m.last_prices;
}

-- The rows of one user: JOIN subscriptions and markets, both active, ORDER BY s.id.
unfoldable pub rows_of : Db → User → List SummaryRow
rows_of d u =
    flat_map
      (λ s.
        map (row_of u s)
          (keep (λ m. (m.id == s.market_id) && (s.is_active && m.is_active)) d.markets))
      (order_by (λ a b. ltb_ℤ a.id b.id) (keep (λ s. s.user_id == u.id) d.subscriptions))

-- ORDER BY u.id, s.id
unfoldable pub summary_rows : Db → List SummaryRow
unfolding rows_of
summary_rows d = flat_map (rows_of d) (order_by (λ a b. ltb_ℤ a.id b.id) d.users)

-- The Telegram id, the bot and the rows of a user.
abbrev pub Group : Type 0
Group = ℤ × String × List SummaryRow

-- entry.or_insert_with, and the row pushed.
abbrev pub with_row : SummaryRow → Option Group → Group
with_row row none = (row.telegram_id, row.bot_id, row ∷ [])
with_row row (some (telegram_id, bot_id, subs)) = (telegram_id, bot_id, subs ++ row ∷ [])

unfoldable pub add_row : SummaryRow → Dict ℤ Group → Dict ℤ Group
unfolding get insert
add_row row m = insert row.user_id (with_row row (get row.user_id m)) m

-- for row in rows
unfoldable pub group_rows : List SummaryRow → Dict ℤ Group → Dict ℤ Group
unfolding add_row
group_rows [] m = m
group_rows (row ∷ rows) m = group_rows rows (add_row row m)

module _ (o : SummaryOps) where
  abbrev label_or : ℤ → Option String → String
  label_or i none = "Outcome " <> show_ℤ i
  label_or i (some label) = label

  abbrev price_or : Option F64 → F64
  price_or none = o.zero_price
  price_or (some price) = price

  abbrev price_part : String → F64 → String
  price_part label price = label <> (": $" <> o.show_cents price)

  -- outcomes.zip(last_prices.chain(repeat(0.0))), formatted
  unfoldable pub price_parts : List String → List F64 → List String
  price_parts [] prices = []
  price_parts (label ∷ labels) [] = price_part label o.zero_price ∷ price_parts labels []
  price_parts (label ∷ labels) (price ∷ prices) = price_part label price ∷ price_parts labels prices

  -- The four lines of a row whose columns parse.
  abbrev pub lines_of : ℕ → SummaryRow → List String → List F64 → List String
  lines_of number row outcomes prices =
      (show_ℕ number <> (". " <> row.question))
      ∷ ("   Tracking: "
          <> (label_or row.outcome_index (get_elem? outcomes (as_usize row.outcome_index))
              <> (" @ $"
                  <> o.show_cents (price_or (get_elem? prices (as_usize row.outcome_index))))))
      ∷ ("   " <> join " | " (price_parts outcomes prices))
      ∷ ""
      ∷ []

  -- `?` on both columns, then the lines of the row.
  abbrev pub with_prices :
      ℕ → SummaryRow → List String → Result (List String) → Result (List F64) → Result (List String)
  with_prices number row lines (ok outcomes) (ok prices) =
      ok (lines ++ lines_of number row outcomes prices)
  with_prices number row lines (ok outcomes) (err e) = err e
  with_prices number row lines (err e) prices = err e

  unfoldable pub format_row : ℕ → SummaryRow → List String → Result (List String)
  unfolding price_parts show_ℕ show_ℤ
  format_row number row lines =
      with_prices number row lines
        (required ("malformed outcomes JSON for question " <> row.question)
          (o.json.parse_strings row.outcomes))
        (required ("malformed last_prices JSON for question " <> row.question)
          (o.parse_floats row.last_prices))

  -- The loop over the rows, which the first error leaves.
  unfoldable pub format_rows : ℕ → List SummaryRow → Result (List String) → Result (List String)
  unfolding format_row
  format_rows number rows (err e) = err e
  format_rows number [] (ok lines) = ok lines
  format_rows number (row ∷ rows) (ok lines) =
      format_rows (number + 1) rows (format_row number row lines)

  abbrev pub closed_by : String → Result (List String) → Result String
  closed_by now_str (err e) = err e
  closed_by now_str (ok lines) = ok (join "\n" (lines ++ ("Updated: " <> now_str) ∷ []))

  unfoldable pub format_summary : List SummaryRow → String → Result String
  unfolding format_rows join
  format_summary subs now_str =
      closed_by now_str (format_rows 1 subs (ok ("📊 Daily Summary" ∷ "" ∷ [])))
