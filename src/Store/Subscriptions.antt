-- ===== src/Store/Subscriptions.antt =====
-- crates/pn-common/src/db.rs, the helpers on the `subscriptions` table and its joins.
use poly_notifier.Common.{
  ℕ, ℤ, ◌==◌, int_eq, string_eq, Bool, ◌&&◌, List, map, any, keep, length, order_by, ltb, ltb_ℤ,
  flat_map,
}
use poly_notifier.Store.Rows.{User, Market, Subscription, SubscriptionDetail}
use poly_notifier.Store.World.{Db, World, Exec, select}

abbrev pub detail : Subscription → Market → User → SubscriptionDetail
detail s m u = record {
  subscription_id = s.id;
  outcome_index = s.outcome_index;
  market_id = m.id;
  condition_id = m.condition_id;
  question = m.question;
  token_ids = m.token_ids;
  last_prices = m.last_prices;
  user_id = u.id;
  telegram_id = u.telegram_id;
  bot_id = u.bot_id;
  timezone = u.timezone;
}

-- JOIN markets m ON m.id = s.market_id, for one subscription
abbrev pub market_of : Db → Subscription → List Market
market_of d s = keep (λ m. m.id == s.market_id) d.markets

-- JOIN users u ON u.id = s.user_id, for one subscription
abbrev pub user_of : Db → Subscription → List User
user_of d s = keep (λ u. u.id == s.user_id) d.users

-- WHERE s.is_active = 1 AND m.is_active = 1, over the subscriptions of a list
abbrev pub active_details : Db → List Subscription → List SubscriptionDetail
active_details d = flat_map λ s.
    flat_map (λ m. map (detail s m) (user_of d s))
      (keep (λ m. s.is_active && m.is_active) (market_of d s))

unfoldable pub get_user_subscriptions : ℤ → Exec World (List SubscriptionDetail)
get_user_subscriptions user_id = select λ d. active_details d (
    order_by (λ a b. ltb a.created_at b.created_at)
      (keep (λ s. s.user_id == user_id) d.subscriptions))

unfoldable get_active_subscriptions_with_details : Exec World (List SubscriptionDetail)
get_active_subscriptions_with_details =
    select λ d. active_details d (order_by (λ a b. ltb_ℤ a.id b.id) d.subscriptions)

abbrev pub is_active_of : ℤ → Subscription → Bool
is_active_of user_id s = (s.user_id == user_id) && s.is_active

unfoldable get_subscriptions_for_user : ℤ → Exec World (List Subscription)
get_subscriptions_for_user user_id = select λ d.
    order_by (λ a b. ltb a.created_at b.created_at) (keep (is_active_of user_id) d.subscriptions)

-- SELECT COUNT(*)
unfoldable pub count_active_subscriptions : ℤ → Exec World ℕ
count_active_subscriptions user_id =
    select (λ d. length (keep (is_active_of user_id) d.subscriptions))

-- FROM markets m INNER JOIN subscriptions s, both active, DISTINCT by m.id: the active markets with an active subscription.
abbrev pub subscribed_markets : Db → List Market
subscribed_markets d =
    keep (λ m. m.is_active && any (λ s. (s.market_id == m.id) && s.is_active) d.subscriptions)
      d.markets
