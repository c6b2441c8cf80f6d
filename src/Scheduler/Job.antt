-- ===== src/Scheduler/Job.antt =====
-- crates/pn-scheduler/src/daily_summary.rs: the job that wakes on a schedule and queues one summary for
-- each user. The cron schedule is a parameter.
pub mod Queues
use poly_notifier.Common.{
  ℕ, ◌+◌, ◌-◌, ◌*◌, ℤ, String, int_eq, Option, none, some, List, [], ◌∷◌, ◌++◌, leb, if◌then◌else◌,
}
use poly_notifier.Store.Rows.{NotificationRequest, daily_summary, Result, ok, err}
use poly_notifier.Store.World.{World, Exec, pure, attempt, ◌>>=◌, ◌>>◌, now, select, enqueue, tick}
use poly_notifier.Polymarket.Http.{context, required}
use poly_notifier.Scheduler.Summary.{
  SummaryOps, SummaryRow, Group, summary_rows, group_rows, format_summary,
}

-- How many summaries went into the channel, and how many did not.
pub record Counts : Type 0 where
  pub sent : ℕ
  pub failed : ℕ

unfoldable pub fetch_summary_rows : Exec World (List SummaryRow)
unfolding summary_rows
fetch_summary_rows w =
    let (r, w') = select summary_rows w in
    (context "failed to fetch summary rows from database" r, w')

module _ (o : SummaryOps) where
  abbrev pub request_of : ℤ → String → String → NotificationRequest
  request_of telegram_id bot_id message = record {
    user_telegram_id = telegram_id;
    bot_id = bot_id;
    message = message;
    notification_type = daily_summary;
  }

  abbrev pub count : Counts → Result (Unit {0}) → Counts
  count c (ok _) = record c { sent = c.sent + 1 }
  count c (err e) = record c { failed = c.failed + 1 }

  -- A summary that cannot be formatted is skipped.
  unfoldable pub send_formatted : ℤ → String → Result String → Counts → Exec World Counts
  send_formatted telegram_id bot_id (err e) c = pure (record c { failed = c.failed + 1 })
  send_formatted telegram_id bot_id (ok message) c = do
    r ← attempt (enqueue (request_of telegram_id bot_id message))
    pure (count c r)

  unfoldable pub send_groups : String → List (ℤ × Group) → Counts → Exec World Counts
  unfolding send_formatted format_summary
  send_groups now_str [] c = pure c
  send_groups now_str ((user_id, (telegram_id, bot_id, subs)) ∷ groups) c = do
    c' ← send_formatted telegram_id bot_id (format_summary o subs now_str) c
    send_groups now_str groups c'

  -- Without rows nothing is done.
  unfoldable pub send_rows : List SummaryRow → Exec World (Unit {0})
  unfolding send_groups group_rows
  send_rows [] = pure tt
  send_rows (row ∷ rows) = do
    at ← now
    send_groups (o.format_minute at) (group_rows (row ∷ rows) []) (record { sent = 0; failed = 0 })
    pure tt

  unfoldable pub send_summaries : Exec World (Unit {0})
  unfolding send_rows fetch_summary_rows
  send_summaries = do rows ← fetch_summary_rows; send_rows rows

  -- The loop with the pauses that it made, in nanoseconds.
  pub record Job : Type 0 where
    pub world : World
    pub delays : List ℕ

  -- (next - now).to_std().ok().unwrap_or(60 s)
  abbrev pub delay_until : Option ℕ → ℕ → ℕ
  delay_until none at = 60 * 1_000_000_000
  delay_until (some next) at = if leb at next then next - at else 60 * 1_000_000_000

  -- What `tokio::select!` hands to the loop after the delay was chosen.
  pub data Event : Type 0 where
    slept cancelled : Event

  -- The instant is compared with a second reading of the clock, which `and_then` makes only if there
  -- is one.
  abbrev pub paused : Option ℕ → Job → Job
  paused none s = record s { delays = s.delays ++ delay_until none 0 ∷ [] }
  paused (some next) s = record s {
    world = tick s.world;
    delays = s.delays ++ delay_until (some next) (s.world.clock s.world.calls) ∷ [];
  }

  -- schedule.upcoming(Utc).next() reads the clock.
  abbrev pub choose_delay : (ℕ → Option ℕ) → Job → Job
  choose_delay upcoming s =
      paused (upcoming (s.world.clock s.world.calls)) (record s { world = tick s.world })

  -- The error of a run is logged.
  abbrev pub woken : Job → Job
  woken s = record s { world = (send_summaries s.world).1 }

  unfoldable pub loop : (ℕ → Option ℕ) → List Event → Job → Job
  unfolding send_summaries
  loop upcoming [] s = choose_delay upcoming s
  loop upcoming (cancelled ∷ events) s = choose_delay upcoming s
  loop upcoming (slept ∷ events) s = loop upcoming events (woken (choose_delay upcoming s))

  -- Schedule::from_str is a parameter, with the schedule as the next instant after a time.
  unfoldable pub run : (String → Option (ℕ → Option ℕ)) → String → List Event → World → Result Job
  unfolding loop
  run parse_schedule cron_expr events w =
      elim (required "invalid cron expression" (parse_schedule cron_expr)) [
        | err e ↦ err e
        | ok upcoming ↦ ok (loop upcoming events (record { world = w; delays = [] }))
      ]
