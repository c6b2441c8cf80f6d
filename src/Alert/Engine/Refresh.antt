-- ===== src/Alert/Engine/Refresh.antt =====
-- engine.rs, refresh_cache and refresh_condition_tokens.
use mathlib.Core.List.{filter_map}
use poly_notifier.Common.{
  ℕ, ℤ, String, ◌==◌, int_eq, string_eq, ◌&&◌, Option, none, some, List, [], ◌∷◌, ◌++◌, map, keep,
  flat_map, get_elem?, as_usize,
}
use poly_notifier.Common.Dict.{Dict, get, insert}
use poly_notifier.Store.Rows.{
  Alert, Subscription, Market, User, F64, AlertType, parse_alert_type, Result, ok, err,
}
use poly_notifier.Store.World.{Db, Exec, pure, attempt, ◌>>=◌, ◌>>◌, select}
use poly_notifier.Store.Subscriptions.{market_of, user_of, subscribed_markets}
use poly_notifier.Interfaces.{Libraries}
use poly_notifier.Alert.Rules.{AlertRule}
use poly_notifier.Alert.Dedup.{load_from_alerts}
use poly_notifier.Alert.Engine.{Engine, in_world}

pub record AlertRow : Type 0 where
  pub alert_id : ℤ
  pub subscription_id : ℤ
  pub alert_type : String
  pub threshold : F64
  pub cooldown_minutes : ℤ
  pub last_triggered_at : Option ℕ
  pub user_telegram_id : ℤ
  pub bot_id : String
  pub outcome_index : ℤ
  pub market_question : String
  pub token_ids : String

abbrev pub alert_row : Alert → Subscription → Market → User → AlertRow
alert_row a s m u = record {
  alert_id = a.id;
  subscription_id = a.subscription_id;
  alert_type = a.alert_type;
  threshold = a.threshold;
  cooldown_minutes = a.cooldown_minutes;
  last_triggered_at = a.last_triggered_at;
  user_telegram_id = u.telegram_id;
  bot_id = u.bot_id;
  outcome_index = s.outcome_index;
  market_question = m.question;
  token_ids = m.token_ids;
}

-- JOIN markets and users, WHERE both the subscription and the market are active.
abbrev pub rows_of_subscription : Db → Alert → Subscription → List AlertRow
rows_of_subscription d a s =
    flat_map (λ m. map (alert_row a s m) (user_of d s))
      (keep (λ m. s.is_active && m.is_active) (market_of d s))

-- JOIN subscriptions s ON s.id = a.subscription_id
abbrev pub rows_of_alert : Db → Alert → List AlertRow
rows_of_alert d a =
    flat_map (rows_of_subscription d a) (keep (λ s. s.id == a.subscription_id) d.subscriptions)

unfoldable pub alert_rows : Db → List AlertRow
alert_rows d = flat_map (rows_of_alert d) d.alerts

module _ (l : Libraries) where
  open l use {decimal, json}

  -- Decimal::try_from(row.threshold).unwrap_or_else(ZERO)
  abbrev pub threshold_of : Option decimal.Decimal → decimal.Decimal
  threshold_of none = decimal.zero_price
  threshold_of (some t) = t

  abbrev pub rule_with : AlertRow → String → AlertType → AlertRule decimal
  rule_with row token_id type = record {
    alert_id = row.alert_id;
    subscription_id = row.subscription_id;
    user_telegram_id = row.user_telegram_id;
    bot_id = row.bot_id;
    token_id = token_id;
    outcome_index = row.outcome_index;
    market_question = row.market_question;
    alert_type = type;
    threshold = threshold_of (decimal.of_f64 row.threshold);
    cooldown_minutes = row.cooldown_minutes;
    last_triggered_at = row.last_triggered_at;
  }

  typed_rule : AlertRow → String → Result AlertType → Option (AlertRule decimal)
  typed_rule row token_id (ok type) = some (rule_with row token_id type)
  typed_rule row token_id (err e) = none

  rule_of_token : AlertRow → Option String → Option (AlertRule decimal)
  unfolding typed_rule parse_alert_type
  rule_of_token row none = none
  rule_of_token row (some token_id) = typed_rule row token_id (parse_alert_type row.alert_type)

  rule_of_tokens : AlertRow → Option (List String) → Option (AlertRule decimal)
  unfolding rule_of_token
  rule_of_tokens row none = none
  rule_of_tokens row (some ids) = rule_of_token row (get_elem? ids (as_usize row.outcome_index))

  -- The body of the loop over the rows: a row that does not parse is skipped.
  unfoldable pub rule_of_row : AlertRow → Option (AlertRule decimal)
  unfolding rule_of_tokens
  rule_of_row row = rule_of_tokens row (json.parse_strings row.token_ids)

  abbrev pub Cache : Type 0
  Cache = Dict String (List (AlertRule decimal))

  abbrev pub or_default : Option (List (AlertRule decimal)) → List (AlertRule decimal)
  or_default none = []
  or_default (some rules) = rules

  -- by_token.entry(token_id).or_default().push(rule)
  unfoldable pub push_rule : Cache → AlertRule decimal → Cache
  push_rule m rule = insert rule.token_id (or_default (get rule.token_id m) ++ rule ∷ []) m

  unfoldable pub group_by_token : Cache → List (AlertRule decimal) → Cache
  unfolding push_rule
  group_by_token m [] = m
  group_by_token m (rule ∷ rules) = group_by_token (push_rule m rule) rules

  -- for (token_id, rules) in by_token { self.rule_cache.insert(token_id, rules) }
  unfoldable pub copy_entries : Cache → Cache → Cache
  copy_entries [] cache = cache
  copy_entries ((token_id, rules) ∷ entries) cache =
      copy_entries entries (insert token_id rules cache)

  abbrev pub Conditions : Type 0
  Conditions = Dict String (ℤ × List String)

  unfoldable pub insert_condition : Market → Option (List String) → Conditions → Conditions
  insert_condition m none c = c
  insert_condition m (some ids) c = insert m.condition_id (m.id, ids) c

  unfoldable pub insert_conditions : List Market → Conditions → Conditions
  unfolding insert_condition
  insert_conditions [] c = c
  insert_conditions (m ∷ ms) c =
      insert_conditions ms (insert_condition m (json.parse_strings m.token_ids) c)

  unfoldable pub set_conditions : Conditions → Exec (Engine l) (Unit {0})
  set_conditions c s = (ok tt, record s { condition_tokens = c })

  unfoldable pub refresh_condition_tokens : Exec (Engine l) (Unit {0})
  refresh_condition_tokens = do
    rows ← in_world l (select subscribed_markets)
    set_conditions (insert_conditions rows [])

  unfoldable pub install_rules : List (AlertRule decimal) → Exec (Engine l) (Unit {0})
  unfolding group_by_token copy_entries load_from_alerts
  install_rules rules s = (
    ok tt,
    record s {
      rule_cache = copy_entries (group_by_token [] rules) [];
      dedup = load_from_alerts decimal s.dedup rules;
    },
  )

  unfoldable pub refresh_with : List AlertRow → Exec (Engine l) (Unit {0})
  refresh_with rows = do
    install_rules (filter_map rule_of_row rows)
    attempt refresh_condition_tokens
    pure tt

  unfoldable pub refresh_cache : Exec (Engine l) (Unit {0})
  refresh_cache = do rows ← in_world l (select alert_rows); refresh_with rows
