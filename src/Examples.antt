-- ===== src/Examples.antt =====
-- The libraries, the environment and the rows that the examples use.
pub mod Alerts
pub mod Notices
pub mod Feeds
pub mod Requests
pub mod Bot
pub mod Clients
pub mod Summaries
pub mod Journey
pub mod Tokens
use poly_notifier.Common.{
  ℕ, ◌*◌, ◌≤◌, ℤ, pos, String, ◌==◌, string_eq, ◌≡◌, refl, ◌⊎◌, inl, inr, Bool, true, false, not,
  Option, none, some, List, [], ◌∷◌, arith, ltb, leb, nat_beq, if◌then◌else◌,
}
use poly_notifier.Store.Rows.{User, Market, Subscription, above}
use poly_notifier.Store.World.{Env, Db, World, empty_db}
use poly_notifier.Interfaces.{DecimalOps, IsOrdered, JsonOps, Libraries}
use poly_notifier.Alert.Rules.{AlertRule}

-- Prices in cents.
abbrev pub cents : DecimalOps
cents = record {
  Decimal = ℕ;
  lt = ltb;
  le = leb;
  zero_price = 0;
  is_zero = λ p. nat_beq p 0;
  of_f64 = λ f. some f.bits;
  from_str = λ s. none;
  percent = λ p. p;
  show = λ p. "p";
  to_json = λ ps. some "[]";
}

pub cents-IsOrdered : IsOrdered cents
cents-IsOrdered = record {
  lt-not-le = λ a b. ground arith;
  le_trans = λ a b c h k. ground (arith, h, k);
  le_total = λ a b. ground arith;
}

-- A text is the list of itself, but for one that does not parse.
abbrev pub one_text : JsonOps
one_text = record {
  parse_strings = λ s. if s == "bad" then none else some (s ∷ []);
  print_strings = λ xs. "";
}

abbrev pub libraries : Libraries
libraries = record { decimal = cents; json = one_text; format_utc = λ at. "now" }

-- 1000 seconds pass from call to call, nothing fails, and Telegram refuses the call of one number.
abbrev pub calm_env : Env
calm_env = record {
  clock = λ i. 1_000_000_000_000 * i;
  db_fault = λ i. none;
  telegram_fault = λ i. none;
  channel_open = λ i. true;
}

abbrev pub ada : User
ada = record {
  id = pos 1;
  telegram_id = pos 77;
  bot_id = "7";
  username = none;
  tier = "free";
  max_subscriptions = pos 5;
  timezone = "UTC";
  created_at = 0;
  updated_at = 0;
}

abbrev pub rain : Market
rain = record {
  id = pos 1;
  condition_id = "c";
  question = "Rain?";
  slug = none;
  outcomes = "Yes";
  token_ids = "tok";
  last_prices = "[]";
  is_active = true;
  created_at = 0;
  updated_at = 0;
}

abbrev pub watch : Subscription
watch = record {
  id = pos 1;
  user_id = pos 1;
  market_id = pos 1;
  outcome_index = pos 0;
  is_active = true;
  created_at = 0;
}

abbrev pub small_db : Db
small_db = record empty_db { users = ada ∷ []; markets = rain ∷ []; subscriptions = watch ∷ [] }

abbrev pub small_world : World
small_world = record { env = calm_env; calls = 0; db = small_db; sent = []; queue = [] }

abbrev pub rule_of_ada : AlertRule cents
rule_of_ada = record {
  alert_id = pos 1;
  subscription_id = pos 1;
  user_telegram_id = pos 77;
  bot_id = "7";
  token_id = "tok";
  outcome_index = pos 0;
  market_question = "Rain?";
  alert_type = above;
  threshold = 60;
  cooldown_minutes = pos 5;
  last_triggered_at = some 1;
}
