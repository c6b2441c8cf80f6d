-- ===== src/Examples/Summaries.antt =====
-- The theorem on the daily summary at concrete rows.
use poly_notifier.Common.{pos, ltb_ℤ, ◌≡◌, refl, some, [], ◌∷◌, ◌++◌, order_by, flat_map}
use poly_notifier.Store.Rows.{User, ok}
use poly_notifier.Store.World.{World}
use poly_notifier.Scheduler.Summary.{SummaryOps, rows_of}
use poly_notifier.Scheduler.Job.{send_summaries}
use poly_notifier.Scheduler.Job.Queues.{summary_for, send_summaries-queues}
use poly_notifier.Examples.{ada, rain, watch, one_text, small_world, small_db}

abbrev ops : SummaryOps
ops = record {
  json = one_text;
  parse_floats = λ s. some [];
  zero_price = record { bits = 0 };
  show_cents = λ p. "0.00";
  format_minute = λ at. "now";
}

-- A second user, whose market has a column that does not parse, and one without subscriptions.
abbrev bob : User
bob = record ada { id = pos 2; telegram_id = pos 78 }

abbrev cy : User
cy = record ada { id = pos 3; telegram_id = pos 79 }

abbrev three_users : World
three_users = record small_world {
  db = record small_db {
    users = ada ∷ bob ∷ cy ∷ [];
    markets = rain ∷ record rain { id = pos 2; outcomes = "bad" } ∷ [];
    subscriptions = watch ∷ record watch { id = pos 2; user_id = pos 2; market_id = pos 2 } ∷ [];
  };
}

send_summaries-queues_example :
    ((send_summaries ops three_users).0 ≡ ok tt)
    × ((send_summaries ops three_users).1.queue
        ≡ three_users.queue
          ++ flat_map
              (λ u. summary_for ops "now" u (rows_of three_users.db u))
              (order_by (λ a b. ltb_ℤ a.id b.id) three_users.users))
    × ((send_summaries ops three_users).1.db ≡ three_users.db)
    × ((send_summaries ops three_users).1.sent ≡ three_users.sent)
send_summaries-queues_example =
    send_summaries-queues ops three_users refl (λ n. refl)
      ((refl, (refl, tt)), ((refl, tt), (tt, tt)))
