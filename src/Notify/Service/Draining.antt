-- ===== src/Notify/Service/Draining.antt =====
-- service.rs: every queued message to a known user ends in the log.
use poly_notifier.Common.{
  ℕ, ℤ, String, ◌==◌, int_eq, string_eq, ◌≡◌, ◌∙◌, refl, sym, ap, Bool, true, false, Option, none,
  some, List, [], ◌∷◌, ◌++◌, map, find, Member, here, there, Member-append_left,
  Member-append_right, Bool-cases, Option-cases, inl, inr, arith,
}
use mathlib.Core.Path.{subst}
use poly_notifier.Store.Rows.{
  Result, ok, err, User, NotificationLog, NotificationType, NotificationRequest,
  show_notification_type,
}
use poly_notifier.Store.World.{Db, Env, World, Sent, ◌>>=◌, statement, tick, now}
use poly_notifier.Store.Users.{resolve_user_id_by_telegram}
use poly_notifier.Store.Logs.{has_user, is_log_type, insert_log, insert_notification_log}
use poly_notifier.Notify.RateLimiter.{check_at, check_and_consume}
use poly_notifier.Notify.Service.{
  NotifyService, log_attempt, log_of, deliver, allow, deliver_if, handle_for, handle, error_text,
  serve_unknown, send_with_retries, received, run,
}
use poly_notifier.Notify.Service.Sending.{message_of, Outcome, send_with_retries-Sends}
use poly_notifier.Notify.Service.Delivery.{Logged, handle_logs}

-- The rows with one more in the log.
abbrev pub with_log : NotificationLog → ℕ → Db → Db
with_log row n d = record d { notification_log = d.notification_log ++ row ∷ []; next_log = n }

-- What holds of the rows and of the sent messages whatever is appended to them, in one environment.
module _ (e : Env) (R : Db → List Sent → Type 0)
    (stays : (row : NotificationLog) (n : ℕ) (d : Db) (sent : List Sent)
      → R d sent
      → R (with_log row n d) sent) where
  abbrev pub Holds : World → Type 0
  Holds w = (w.env ≡ e) × R w.db w.sent

  pub log_attempt-Holds :
      (user_id : ℤ) (type : NotificationType) (message : String) (delivered : Bool)
      (error_message : Option String) (w : World)
      → Holds w
      → Holds (log_attempt user_id none type message delivered error_message w).1
  unfolding log_attempt insert_notification_log ◌>>=◌ statement insert_log
  log_attempt-Holds user_id type message delivered error_message w h =
      elim (Option-cases (w.db_fault w.calls)) [
        | inr (x, fault) ↦ rw (fault, statement) h
        | inl sound ↦
            rw (sound, statement)
              (elim (Bool-cases (is_log_type (show_notification_type type))) [
                | inr bad ↦ rw bad h
                | inl good ↦ rw good (elim (Bool-cases (has_user user_id w.db)) [
                  | inr gone ↦ rw gone h
                  | inl known ↦ rw known (h.0, stays _ _ w.db w.sent h.1)
                ])
              ])
      ]

  pub log_of-Holds :
      (r : Result (Unit {0})) (user_id : ℤ) (req : NotificationRequest) (w : World)
      → Holds w
      → Holds (log_of r user_id req w).1
  log_of-Holds (ok _) user_id req w h =
      log_attempt-Holds user_id req.notification_type req.message true none w h
  log_of-Holds (err x) user_id req w h =
      log_attempt-Holds user_id req.notification_type req.message false (some (error_text x)) w h

-- The sent messages too.
module _ (e : Env) (R : Db → List Sent → Type 0)
    (stays : (row : NotificationLog) (n : ℕ) (d : Db) (sent : List Sent)
      → R d sent
      → R (with_log row n d) sent)
    (stays_sent : (m : Sent) (d : Db) (sent : List Sent) → R d sent → R d (sent ++ m ∷ [])) where
  sent_either :
      (m : Sent) (d : Db) (before : List Sent) (out : Result (Unit {0}) × World)
      → Outcome m before out
      → R d before
      → R d out.1.sent
  sent_either m d before out (inl (same, sent)) h = subst (R d) (sym sent) (stays_sent m d before h)
  sent_either m d before out (inr (x, (same, kept))) h = subst (R d) (sym kept) h

  sent-Holds :
      (req : NotificationRequest) (s : NotifyService)
      → Holds e R stays s.world
      → Holds e R stays (send_with_retries s.bot_registry req s.world).1
  sent-Holds req s h =
      let out = send_with_retries s.bot_registry req s.world in
      let sends = send_with_retries-Sends s.bot_registry req s.world in
      (
        sends.same_env ∙ h.0,
        subst (λ d. R d out.1.sent) (sym sends.same_db)
            (sent_either (message_of req) s.db s.sent out sends.outcome h.1),
      )

  deliver_if-Holds :
      (answer : Bool) (user_id : ℤ) (req : NotificationRequest) (s : NotifyService)
      → Holds e R stays s.world
      → Holds e R stays (deliver_if answer user_id req s).1.world
  unfolding deliver_if deliver ◌>>=◌
  deliver_if-Holds true user_id req s h =
      log_of-Holds e R stays (send_with_retries s.bot_registry req s.world).0 user_id req
        (send_with_retries s.bot_registry req s.world).1 (sent-Holds req s h)
  deliver_if-Holds false user_id req s h =
      log_attempt-Holds e R stays user_id req.notification_type req.message false
        (some "rate limit exceeded") s.world h

  handle_for-Holds :
      (id : Option ℤ) (req : NotificationRequest) (s : NotifyService)
      → Holds e R stays s.world
      → Holds e R stays (handle_for id req s).1.world
  unfolding handle_for serve_unknown allow check_and_consume now ◌>>=◌
  handle_for-Holds none req s h = sent-Holds req s h
  handle_for-Holds (some user_id) req s h =
      deliver_if-Holds (check_at s.rate_limiter req.user_telegram_id (s.clock s.calls)).0 user_id
        req
        (record s {
          world = tick s.world;
          rate_limiter = (check_at s.rate_limiter req.user_telegram_id (s.clock s.calls)).1;
        })
        h

  handle-Holds :
      (req : NotificationRequest) (s : NotifyService)
      → Holds e R stays s.world
      → Holds e R stays (handle req s).1.world
  unfolding handle resolve_user_id_by_telegram ◌>>=◌ statement
  handle-Holds req s h = elim (Option-cases (s.db_fault s.calls)) [
    | inr (x, fault) ↦ rw (fault, statement) h
    | inl sound ↦
        rw (sound, statement) (handle_for-Holds _ req (record s { world = tick s.world }) h)
  ]

  run-Holds :
      (reqs : List NotificationRequest) (s : NotifyService)
      → Holds e R stays s.world
      → Holds e R stays (run s (map received reqs)).world
  unfolding run
  run-Holds [] s h = h
  run-Holds (req ∷ reqs) s h = run-Holds reqs (handle req s).1 (handle-Holds req s h)

-- A row of the log for a user and a message, which says delivered only if Telegram accepted it.
pub record HasRow (user_id : ℤ) (req : NotificationRequest) (log : List NotificationLog)
    (sent : List Sent) : Type 0 where
  pub row : NotificationLog
  pub in_log : Member row log
  pub for_user : row.user_id ≡ user_id
  pub same_text : row.message ≡ req.message
  pub truthful : row.delivered ≡ true → Member (message_of req) sent

module _ (user_id : ℤ) (req : NotificationRequest) where
  HasRow-append :
      (row : NotificationLog) (log : List NotificationLog) (sent : List Sent)
      → HasRow user_id req log sent
      → HasRow user_id req (log ++ row ∷ []) sent
  HasRow-append row log sent h = record {
    row = h.row;
    in_log = Member-append_left h.row log (row ∷ []) h.in_log;
    for_user = h.for_user;
    same_text = h.same_text;
    truthful = h.truthful;
  }

  HasRow-sent :
      (m : Sent) (log : List NotificationLog) (sent : List Sent)
      → HasRow user_id req log sent
      → HasRow user_id req log (sent ++ m ∷ [])
  HasRow-sent m log sent h = record {
    row = h.row;
    in_log = h.in_log;
    for_user = h.for_user;
    same_text = h.same_text;
    truthful = λ d. Member-append_left (message_of req) sent (m ∷ []) (h.truthful d);
  }

  not_both : (b : Bool) → b ≡ false → b ≡ true → ⊥
  not_both b h k = ground (arith, h, k)

  Logged-HasRow :
      (log : List NotificationLog) (sent : List Sent) (out : Result (Unit {0}) × World)
      → Logged req user_id log sent out
      → HasRow user_id req out.1.notification_log out.1.sent
  Logged-HasRow log sent out logged = record {
    row = logged.row;
    in_log =
        subst (Member logged.row) (sym logged.appended)
          (Member-append_right logged.row log (logged.row ∷ []) (here []));
    for_user = logged.for_user;
    same_text = logged.same_text;
    truthful = λ says. elim logged.truthful [
      | inl (is_so, went_out) ↦
          subst (Member (message_of req)) (sym went_out)
            (Member-append_right (message_of req) sent (message_of req ∷ []) (here []))
      | inr (is_not, kept) ↦ elim (not_both logged.row.delivered is_not says) [ ]
    ];
  }

-- A run over queued messages leaves a row in the log for each of them whose user the database knows.
pub run-HasRow :
    (req : NotificationRequest) (u : User) (reqs : List NotificationRequest) (s : NotifyService)
    → Member req reqs
    → find (λ x. x.telegram_id == req.user_telegram_id) s.users ≡ some u
    → ((n : ℕ) → s.db_fault n ≡ none)
    → (let out = run s (map received reqs) in HasRow u.id req out.notification_log out.sent)
unfolding run
run-HasRow req u _ s (here reqs) found sound =
    let out = handle req s in
    (run-Holds out.1.env (λ d sent. HasRow u.id req d.notification_log sent)
      (λ row n d sent h. HasRow-append u.id req row d.notification_log sent h)
      (λ m d sent h. HasRow-sent u.id req m d.notification_log sent h) reqs out.1
      (
        refl,
        Logged-HasRow u.id req s.notification_log s.sent (out.0, out.1.world)
            (handle_logs req s u found sound),
      )).1
run-HasRow req u _ s (there other reqs m) found sound =
    let kept =
      handle-Holds s.env (λ d sent. d.users ≡ s.users) (λ row n d sent h. h) (λ m d sent h. h) other
        s (refl, refl) in
    run-HasRow req u reqs (handle other s).1 m
      (ap (find (λ x. x.telegram_id == req.user_telegram_id)) kept.1 ∙ found)
      (λ n. subst (λ v. v.db_fault n ≡ none) (sym kept.0) (sound n))
