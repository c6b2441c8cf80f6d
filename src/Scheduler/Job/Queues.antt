-- ===== src/Scheduler/Job/Queues.antt =====
-- daily_summary.rs: what one run of the job leaves in the channel.
use poly_notifier.Common.{
  ℕ, ◌+◌, ℤ, int_eq, int_beq_iff, ◌≡◌, refl, sym, ap, ◌∙◌, String, true, none, List, [], ◌∷◌, ◌++◌,
  order_by, flat_map, ltb_ℤ, arith, All-any,
}
use native.Mathlib.Nat.{add_assoc, add-zero}
use mathlib.Core.List.{append_assoc, append-nil}
use mathlib.Core.Path.{fun_ext}
use poly_notifier.Store.Steps.{bound}
use poly_notifier.Common.Sorting.{Pairwise, Pairwise-order_by, flat_map-flat_map}
use poly_notifier.Store.Rows.{NotificationRequest, User, Result, ok, err}
use poly_notifier.Store.World.{Db, World, pure, ◌>>=◌, now, statement, enqueue, tick}
use poly_notifier.Scheduler.Summary.{
  SummaryOps, SummaryRow, Group, rows_of, summary_rows, group_rows, format_summary,
}
use poly_notifier.Scheduler.Summary.Groups.{IsApart, entry_of, group_rows-users}
use poly_notifier.Scheduler.Job.{
  Counts, request_of, fetch_summary_rows, send_formatted, send_groups, send_rows, send_summaries,
}

module _ (o : SummaryOps) where
  abbrev pub request_with : ℤ → String → Result String → List NotificationRequest
  request_with telegram_id bot_id (err e) = []
  request_with telegram_id bot_id (ok message) = request_of o telegram_id bot_id message ∷ []

  abbrev pub request_for : String → ℤ × Group → List NotificationRequest
  request_for now_str (user_id, (telegram_id, bot_id, subs)) =
      request_with telegram_id bot_id (format_summary o subs now_str)

  abbrev after : World → List NotificationRequest → ℕ → World
  after w rs k = record w { calls = w.calls + k; queue = w.queue ++ rs }

  after-none : (w : World) → w ≡ after w [] 0
  after-none w =
      ap (λ q. record w { queue = q }) (sym (append-nil w.queue))
      ∙ ap (λ n. record w { calls = n; queue = w.queue ++ [] }) (sym (add-zero w.calls))

  calls_of : Result String → ℕ
  calls_of (err e) = 0
  calls_of (ok message) = 1

  -- One message: the request goes out where the text could be formatted.
  send_formatted-after :
      (telegram_id : ℤ) (bot_id : String) (r : Result String) (c : Counts) (w : World)
      → ((n : ℕ) → w.channel_open n ≡ true)
      → (c' : Counts) × (send_formatted o telegram_id bot_id r c w
          ≡ (ok c', after w (request_with telegram_id bot_id r) (calls_of r)))
  unfolding send_formatted ◌>>=◌ enqueue calls_of
  send_formatted-after telegram_id bot_id (err e) c w there_is =
      let c' : Counts = record c { failed = c.failed + 1 } in
      (c', ap (λ v. (ok c', v)) (after-none w))
  send_formatted-after telegram_id bot_id (ok message) c w there_is =
      (record c { sent = c.sent + 1 }, rw (there_is w.calls, enqueue) refl)

  after-after :
      (w : World) (rs ss : List NotificationRequest) (k l : ℕ)
      → after (after w rs k) ss l ≡ after w (rs ++ ss) (k + l)
  after-after w rs ss k l =
      ap (λ q. record w { calls = w.calls + k + l; queue = q }) (append_assoc w.queue rs ss)
      ∙ ap (λ n. record w { calls = n; queue = w.queue ++ (rs ++ ss) }) (add_assoc w.calls k l)

  send_groups-after :
      (now_str : String) (groups : List (ℤ × Group)) (c : Counts) (w : World)
      → ((n : ℕ) → w.channel_open n ≡ true)
      → (c' : Counts) × (k : ℕ) × (send_groups o now_str groups c w
          ≡ (ok c', after w (flat_map (request_for now_str) groups) k))
  unfolding send_groups ◌>>=◌
  send_groups-after now_str [] c w there_is = (c, 0, ap (λ v. (ok c, v)) (after-none w))
  send_groups-after now_str ((user_id, (telegram_id, bot_id, subs)) ∷ groups) c w there_is =
      let r = format_summary o subs now_str in
      let w' = after w (request_with telegram_id bot_id r) (calls_of r) in
      let (c', first) = send_formatted-after telegram_id bot_id r c w there_is in
      let (c'', k, more) = send_groups-after now_str groups c' w' there_is in
      (
        c'',
        calls_of r + k,
        bound (send_formatted o telegram_id bot_id r c) (λ c. send_groups o now_str groups c) w w'
              c' first
            ∙ more
            ∙ ap (λ v. (ok c'', v))
                (after-after w (request_with telegram_id bot_id r)
                  (flat_map (request_for now_str) groups) (calls_of r) k),
      )

  -- The summary of a user, if there is a row and the text can be formatted.
  abbrev pub summary_for : String → User → List SummaryRow → List NotificationRequest
  summary_for now_str u [] = []
  summary_for now_str u (row ∷ rows) =
      request_with u.telegram_id u.bot_id (format_summary o (row ∷ rows) now_str)

  request_for-entry_of :
      (now_str : String) (u : User) (rows : List SummaryRow)
      → flat_map (request_for now_str) (entry_of u rows) ≡ summary_for now_str u rows
  request_for-entry_of now_str u [] = refl
  request_for-entry_of now_str u (row ∷ rows) = append-nil _

  IsApart-sym : (u v : User) → IsApart u v → IsApart v u
  IsApart-sym u v h = ground (arith, int_beq_iff u.id v.id, int_beq_iff v.id u.id, h)

  -- The requests of the groups are those of the users.
  groups-users :
      (now_str : String) (d : Db)
      → Pairwise IsApart d.users
      → flat_map (request_for now_str) (group_rows (summary_rows d) [])
        ≡ flat_map
            (λ u. summary_for now_str u (rows_of d u))
            (order_by (λ a b. ltb_ℤ a.id b.id) d.users)
  unfolding summary_rows
  groups-users now_str d apart =
      ap (flat_map (request_for now_str)) (
        group_rows-users d (order_by (λ a b. ltb_ℤ a.id b.id) d.users) []
          (Pairwise-order_by IsApart IsApart-sym (λ a b. ltb_ℤ a.id b.id) d.users apart)
          (All-any _ λ u. tt))
      ∙ flat_map-flat_map (λ u. entry_of u (rows_of d u)) (request_for now_str)
          (order_by (λ a b. ltb_ℤ a.id b.id) d.users)
      ∙ ap (λ f. flat_map f (order_by (λ a b. ltb_ℤ a.id b.id) d.users))
          (fun_ext λ u. request_for-entry_of now_str u (rows_of d u))

  -- Without rows nothing is queued, and there is no group either.
  send_rows-after :
      (rows : List SummaryRow) (w : World)
      → ((n : ℕ) → w.channel_open n ≡ true)
      → (k : ℕ) × (send_rows o rows w ≡ (
        ok tt,
        after w (flat_map (request_for (o.format_minute (w.clock w.calls))) (group_rows rows [])) k,
      ))
  unfolding send_rows group_rows now ◌>>=◌
  send_rows-after [] w there_is = (0, ap (λ v. (ok tt, v)) (after-none w))
  send_rows-after (row ∷ rows) w there_is =
      let groups = group_rows (row ∷ rows) [] in
      let now_str = o.format_minute (w.clock w.calls) in
      let none_yet : Counts = record { sent = 0; failed = 0 } in
      let (c', k, sent) = send_groups-after now_str groups none_yet (tick w) there_is in
      (
        1 + k,
        bound (send_groups o now_str groups none_yet) (λ c. pure tt) (tick w)
              (after (tick w) (flat_map (request_for now_str) groups) k) c' sent
            ∙ ap
                (λ n. (
                  ok tt,
                  record w { calls = n; queue = w.queue ++ flat_map (request_for now_str) groups },
                ))
                (add_assoc w.calls 1 k),
      )

  -- Where the query succeeds, the channel takes what it is given and the ids of the users are apart, a
  -- run of the job returns and leaves exactly one more request in the channel for every user who has a
  -- row in the summary and whose rows can be formatted, to the Telegram id and the bot of that user,
  -- with the message of exactly the rows of that user at that time; the others get none. The users
  -- come in the order of their ids. The database stays as it is, and no message goes out by itself.
  pub send_summaries-queues :
      (w : World)
      → w.db_fault w.calls ≡ none
      → ((n : ℕ) → w.channel_open n ≡ true)
      → Pairwise IsApart w.users
      → ((send_summaries o w).0 ≡ ok tt)
        × ((send_summaries o w).1.queue
            ≡ w.queue
              ++ flat_map
                  (λ u. summary_for (o.format_minute (w.clock (w.calls + 1))) u (rows_of w.db u))
                  (order_by (λ a b. ltb_ℤ a.id b.id) w.users))
        × ((send_summaries o w).1.db ≡ w.db)
        × ((send_summaries o w).1.sent ≡ w.sent)
  unfolding send_summaries fetch_summary_rows statement
  send_summaries-queues w sound there_is apart =
      let (k, e) = send_rows-after (summary_rows w.db) (tick w) there_is in
      let all =
        bound fetch_summary_rows (send_rows o) w (tick w) (summary_rows w.db)
          (rw (sound, statement) refl)
        ∙ e in
      (
        ap (λ v. v.0) all,
        ap (λ v. v.1.queue) all
            ∙ ap (λ rs. w.queue ++ rs)
                (groups-users (o.format_minute (w.clock (w.calls + 1))) w.db apart),
        ap (λ v. v.1.db) all,
        ap (λ v. v.1.sent) all,
      )
