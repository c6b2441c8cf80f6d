-- ===== src/Notify/Service/Delivery.antt =====
-- service.rs and telegram.rs together: what a message comes to, and what the log says of it.
use poly_notifier.Common.{
  ℕ, ◌+◌, ℤ, String, ◌==◌, int_eq, string_eq, ◌≡◌, ◌∙◌, refl, sym, ◌⊎◌, inl, inr, Bool, true, false,
  Option, none, some, List, [], ◌∷◌, ◌++◌, find, find-any, arith, beq_refl,
}
use mathlib.Core.Path.{subst}
use poly_notifier.Store.Rows.{
  Result, ok, err, User, NotificationLog, NotificationType, alert, daily_summary,
  NotificationRequest, show_notification_type,
}
use poly_notifier.Store.World.{World, Sent, ◌>>=◌, statement, tick, now}
use poly_notifier.Store.Users.{resolve_user_id_by_telegram}
use poly_notifier.Store.Logs.{has_user, insert_log, insert_notification_log}
use poly_notifier.Notify.RateLimiter.{check_at, check_and_consume}
use poly_notifier.Notify.Service.{
  NotifyService, log_attempt, log_of, deliver, allow, deliver_if, handle_for, handle, error_text,
}
use poly_notifier.Notify.Service.Sending.{message_of, Sends, send_with_retries-Sends}

module _ (req : NotificationRequest) where
  -- The log has one row more, which is for the user and the message; no message went out.
  pub record Wrote (user_id : ℤ) (delivered : Bool) (w : World) (out : Result (Unit {0}) × World)
      : Type 0 where
    pub returned : out.0 ≡ ok tt
    pub none_sent : out.1.sent ≡ w.sent
    pub row : NotificationLog
    pub appended : out.1.notification_log ≡ w.notification_log ++ row ∷ []
    pub for_user : row.user_id ≡ user_id
    pub same_text : row.message ≡ req.message
    pub says : row.delivered ≡ delivered

  -- The log has one row more, for the user and the message, and it says whether the message went
  -- out; it went out once or not at all.
  pub record Logged (user_id : ℤ) (log : List NotificationLog) (sent : List Sent)
      (out : Result (Unit {0}) × World) : Type 0 where
    pub returned : out.0 ≡ ok tt
    pub row : NotificationLog
    pub appended : out.1.notification_log ≡ log ++ row ∷ []
    pub for_user : row.user_id ≡ user_id
    pub same_text : row.message ≡ req.message
    pub truthful :
        ((row.delivered ≡ true) × (out.1.sent ≡ sent ++ message_of req ∷ []))
        ⊎ ((row.delivered ≡ false) × (out.1.sent ≡ sent))

  abbrev pub NoDbFault : World → Type 0
  NoDbFault w = (i : ℕ) → w.db_fault i ≡ none

  -- A row for a user that exists is inserted.
  log_attempt-ok :
      (type : NotificationType) (user_id : ℤ) (delivered : Bool) (error_message : Option String)
      (w : World)
      → w.db_fault w.calls ≡ none
      → has_user user_id w.db ≡ true
      → Wrote user_id delivered w
          (log_attempt user_id none type req.message delivered error_message w)
  unfolding log_attempt insert_notification_log ◌>>=◌ insert_log show_notification_type statement
  log_attempt-ok alert user_id delivered error_message w sound known =
      rw (sound, statement, known)
        (record {
          returned = refl;
          none_sent = refl;
          row = _;
          appended = refl;
          for_user = refl;
          same_text = refl;
          says = refl;
        })
  log_attempt-ok daily_summary user_id delivered error_message w sound known =
      rw (sound, statement, known)
        (record {
          returned = refl;
          none_sent = refl;
          row = _;
          appended = refl;
          for_user = refl;
          same_text = refl;
          says = refl;
        })

  -- What holds of the world after a sending, in terms of the one before it.
  written :
      (user_id : ℤ) (delivered : Bool) (error_message : Option String) (w : World)
      (out : Result (Unit {0}) × World)
      → NoDbFault w
      → has_user user_id w.db ≡ true
      → Sends (message_of req) w out
      → Wrote user_id delivered out.1
          (log_attempt user_id none req.notification_type req.message delivered error_message out.1)
  written user_id delivered error_message w out sound known sends =
      log_attempt-ok req.notification_type user_id delivered error_message out.1
        (subst (λ e. e.db_fault out.1.calls ≡ none) (sym sends.same_env) (sound out.1.calls))
        (subst (λ d. has_user user_id d ≡ true) (sym sends.same_db) known)

  logged :
      (user_id : ℤ) (delivered : Bool) (w w' : World) (out : Result (Unit {0}) × World)
      → w'.db ≡ w.db
      → Wrote user_id delivered w' out
      → ((delivered ≡ true) × (w'.sent ≡ w.sent ++ message_of req ∷ []))
        ⊎ ((delivered ≡ false) × (w'.sent ≡ w.sent))
      → Logged user_id w.notification_log w.sent out
  logged user_id delivered w w' out same_db wrote truth = record {
    returned = wrote.returned;
    row = wrote.row;
    appended =
        subst (λ d. out.1.notification_log ≡ d.notification_log ++ wrote.row ∷ []) same_db
          wrote.appended;
    for_user = wrote.for_user;
    same_text = wrote.same_text;
    truthful = elim truth [
      | inl (holds, sent) ↦ inl (wrote.says ∙ holds, wrote.none_sent ∙ sent)
      | inr (fails, kept) ↦ inr (wrote.says ∙ fails, wrote.none_sent ∙ kept)
    ];
  }

  -- The outcome of the sending is what the log says.
  Sends-Logged :
      (user_id : ℤ) (w : World) (out : Result (Unit {0}) × World)
      → NoDbFault w
      → has_user user_id w.db ≡ true
      → Sends (message_of req) w out
      → Logged user_id w.notification_log w.sent (log_of out.0 user_id req out.1)
  Sends-Logged user_id w (ok _, w') sound known sends =
      logged user_id true w w' _ sends.same_db (written user_id true none w _ sound known sends)
        (elim sends.outcome [
          | inl (same, sent) ↦ inl (refl, sent)
          | inr (e, (impossible, gone)) ↦ ground (arith, impossible)
        ])
  Sends-Logged user_id w (err e, w') sound known sends =
      logged user_id false w w' _ sends.same_db
        (written user_id false (some (error_text e)) w _ sound known sends)
        (elim sends.outcome [
          | inl (impossible, gone) ↦ ground (arith, impossible)
          | inr (e', (same, kept)) ↦ inr (refl, kept)
        ])

  deliver_if-Logged :
      (answer : Bool) (user_id : ℤ) (s : NotifyService)
      → NoDbFault s.world
      → has_user user_id s.db ≡ true
      → (let out = deliver_if answer user_id req s in
          Logged user_id s.notification_log s.sent (out.0, out.1.world))
  unfolding deliver_if deliver ◌>>=◌
  deliver_if-Logged true user_id s sound known =
      Sends-Logged user_id s.world _ sound known
        (send_with_retries-Sends s.bot_registry req s.world)
  deliver_if-Logged false user_id s sound known =
      logged user_id false s.world s.world _ refl
        (log_attempt-ok req.notification_type user_id false (some "rate limit exceeded") s.world
          (sound _) known)
        (inr (refl, refl))

  handle_for-Logged :
      (user_id : ℤ) (s : NotifyService)
      → NoDbFault s.world
      → has_user user_id s.db ≡ true
      → (let out = handle_for (some user_id) req s in
          Logged user_id s.notification_log s.sent (out.0, out.1.world))
  unfolding handle_for allow check_and_consume now ◌>>=◌ check_at
  handle_for-Logged user_id s sound known =
      deliver_if-Logged (check_at s.rate_limiter req.user_telegram_id (s.clock s.calls)).0 user_id
        (record s {
          world = tick s.world;
          rate_limiter = (check_at s.rate_limiter req.user_telegram_id (s.clock s.calls)).1;
        })
        sound known

  -- Without database faults, the handling of a message to a user that the database knows returns,
  -- and the log has exactly one row more, which is for that user and that message and says whether
  -- the message went out; it went out once or not at all.
  pub handle_logs :
      (s : NotifyService) (u : User)
      → find (λ x. x.telegram_id == req.user_telegram_id) s.users ≡ some u
      → NoDbFault s.world
      → (let out = handle req s in Logged u.id s.notification_log s.sent (out.0, out.1.world))
  unfolding handle resolve_user_id_by_telegram ◌>>=◌ statement handle_for allow
  handle_logs s u found sound =
      rw (sound s.calls, statement, found)
        (handle_for-Logged u.id (record s { world = tick s.world }) sound
          (find-any _ (λ x. x.id == u.id) s.users u found (beq_refl u.id)))

  -- The answer of the limiter to the message, read at the second call of the handling.
  abbrev answer_to : NotifyService → Bool
  answer_to s = (check_at s.rate_limiter req.user_telegram_id (s.clock (s.calls + 1))).0

  handle_for_limited :
      (user_id : ℤ) (s : NotifyService)
      → NoDbFault s.world
      → has_user user_id s.db ≡ true
      → (check_at s.rate_limiter req.user_telegram_id (s.clock s.calls)).0 ≡ false
      → (let out = handle_for (some user_id) req s in
          Wrote user_id false (tick s.world) (out.0, out.1.world))
  unfolding handle_for allow check_and_consume now ◌>>=◌ deliver_if
  handle_for_limited user_id s sound known rejected = rw rejected (
      log_attempt-ok req.notification_type user_id false (some "rate limit exceeded") (tick s.world)
        (sound _) known)

  -- Without database faults, a message to a known user that the limiter rejects is not sent, and
  -- the log has exactly one row more, which is for that user and that message and says that it
  -- was not delivered.
  handle_limited :
      (s : NotifyService) (u : User)
      → find (λ x. x.telegram_id == req.user_telegram_id) s.users ≡ some u
      → NoDbFault s.world
      → answer_to s ≡ false
      → (let out = handle req s in
          Wrote u.id false (record s.world { calls = s.calls + 1 + 1 }) (out.0, out.1.world))
  unfolding handle resolve_user_id_by_telegram ◌>>=◌ statement handle_for allow
  handle_limited s u found sound rejected =
      rw (sound s.calls, statement, found)
        (handle_for_limited u.id (record s { world = tick s.world }) sound
          (find-any _ (λ x. x.id == u.id) s.users u found (beq_refl u.id)) rejected)
