-- ===== src/Notify/Service/Limits.antt =====
-- service.rs and rate_limiter.rs together: how many messages of a user go out within a minute.
use poly_notifier.Common.{
  ℕ, ◌+◌, ◌*◌, ◌≤◌, ◌<◌, ℤ, ◌==◌, int_eq, int_beq_iff, string_eq, ◌≡◌, ◌∙◌, refl, sym, ap, Bool,
  true, false, Option, none, some, List, [], ◌∷◌, ◌++◌, find, ◌⊎◌, Bool-cases, Option-cases, inl,
  inr, arith, if◌then◌else◌,
}
use mathlib.Core.Path.{subst}
use poly_notifier.Common.Dict.{get}
use poly_notifier.Store.Rows.{Result, User, NotificationRequest, NotificationLog}
use poly_notifier.Store.World.{Db, Env, World, Sent, ◌>>=◌, statement, tick, now}
use poly_notifier.Store.Users.{resolve_user_id_by_telegram}
use poly_notifier.Notify.RateLimiter.{
  Window, RateLimiter, new_limiter, check_at, check_and_consume, consume, renew, or_fresh,
}
use poly_notifier.Notify.RateLimiter.Steps.{
  Call, after_calls, minute, one_if, count_of, StartsIn, step_any, step_fresh, own_window,
  other_window,
}
use poly_notifier.Notify.RateLimiter.Bounds.{calls-Capped, calls-cap, new-Capped}
use poly_notifier.Notify.Telegram.{BotRegistry}
use poly_notifier.Notify.Service.{
  NotifyService, deliver, allow, deliver_if, handle_for, handle, serve_unknown, send_with_retries,
  Incoming, received, cancelled, closed, run,
}
use poly_notifier.Notify.Service.Sending.{message_of, Outcome, send_with_retries-Sends}
use poly_notifier.Notify.Service.Draining.{Holds, with_log, log_attempt-Holds, log_of-Holds}

-- How many of the messages went to a chat.
abbrev pub sends_to : ℤ → List Sent → ℕ
sends_to u [] = 0
sends_to u (m ∷ ms) = (if m.chat_id == u then 1 else 0) + sends_to u ms

sends_to-append :
    (u : ℤ) (ms : List Sent) (m : Sent)
    → sends_to u (ms ++ m ∷ []) ≡ sends_to u ms + (if m.chat_id == u then 1 else 0)
sends_to-append u [] m = omega arith
sends_to-append u (x ∷ ms) m = omega (arith, sends_to-append u ms m)

-- The messages of the minute so far are those of one window, or of an older one and of one that began
-- in the minute.
abbrev Room : ℕ → ℕ → ℕ → ℕ → Option Window → Type 0
Room base b max n o =
    (count_of o ≤ max) × ((n ≤ base + count_of o) ⊎ ((n ≤ base + max + count_of o) × StartsIn b o))

Room-step :
    (base b max n at : ℕ) (o : Option Window)
    → b ≤ at
    → at < b + minute
    → Room base b max n o
    → (let out = consume max (renew (or_fresh o at) at) in
        Room base b max (n + one_if out.0) (some out.1))
Room-step base b max n at o lo hi (cap, inl old) =
    let step = step_any max at o cap in
    (
      step.0,
      elim step.1 [
        | inl goes_on ↦ inl (omega (arith, old, goes_on))
        | inr (one, begins) ↦
            inr
              (omega (arith, old, one, cap), (omega (arith, begins, lo), omega (arith, begins, hi)))
      ],
    )
Room-step base b max n at o lo hi (cap, inr (new, starts)) =
    let step = step_fresh max b at o lo hi starts cap in
    (step.1.0, inr (omega (arith, new, step.0), step.1.1))

module _ (u : ℤ) (known : User) (b base : ℕ) (e : Env) (users : List User)
    (found : find (λ x. x.telegram_id == u) users ≡ some known)
    (in_minute : (i : ℕ) → (b ≤ e.clock i) × (e.clock i < b + minute)) where
  abbrev SentWithin : ℕ → Db → List Sent → Type 0
  SentWithin n d sent = (d.users ≡ users) × (sends_to u sent ≤ n)

  abbrev within_log :
      (n : ℕ) (row : NotificationLog) (id : ℕ) (d : Db) (sent : List Sent)
      → SentWithin n d sent
      → SentWithin n (with_log row id d) sent
  within_log n row id d sent h = h

  abbrev Within : ℕ → World → Type 0
  Within n = Holds e (SentWithin n) (within_log n)

  sent_more :
      (n : ℕ) (m : Sent) (before : List Sent) (out : Result (Unit {0}) × World)
      → Outcome m before out
      → sends_to u before ≤ n
      → sends_to u out.1.sent ≤ n + (if m.chat_id == u then 1 else 0)
  sent_more n m before out (inl (same, sent)) h =
      rw sent (omega (arith, sends_to-append u before m, h))
  sent_more n m before out (inr (x, (same, kept))) h = rw kept (omega (arith, h))

  send-Within :
      (n : ℕ) (bots : BotRegistry) (req : NotificationRequest) (w : World)
      → Within n w
      → Within (n + (if req.user_telegram_id == u then 1 else 0)) (send_with_retries bots req w).1
  send-Within n bots req w h =
      let sends = send_with_retries-Sends bots req w in
      (
        sends.same_env ∙ h.0,
        (
          ap (λ d. d.users) sends.same_db ∙ h.1.0,
          sent_more n (message_of req) w.sent (send_with_retries bots req w) sends.outcome h.1.1,
        ),
      )

  abbrev more : NotificationRequest → Bool → ℕ
  more req answer = if req.user_telegram_id == u then one_if answer else 0

  deliver_if-Within :
      (answer : Bool) (id : ℤ) (req : NotificationRequest) (n : ℕ) (s : NotifyService)
      → Within n s.world
      → Within (n + more req answer) (deliver_if answer id req s).1.world
  unfolding deliver_if deliver ◌>>=◌
  deliver_if-Within true id req n s h =
      let out = send_with_retries s.bot_registry req s.world in
      log_of-Holds e (SentWithin (n + more req true)) (within_log _) out.0 id req out.1
        (send-Within n s.bot_registry req s.world h)
  deliver_if-Within false id req n s h =
      log_attempt-Holds e (SentWithin (n + more req false)) (within_log _) id req.notification_type
        req.message false (some "rate limit exceeded") s.world (h.0, (h.1.0, omega (arith, h.1.1)))

  deliver_if-limiter :
      (answer : Bool) (id : ℤ) (req : NotificationRequest) (s : NotifyService)
      → (deliver_if answer id req s).1.rate_limiter ≡ s.rate_limiter
  unfolding deliver_if deliver ◌>>=◌
  deliver_if-limiter true id req s = refl
  deliver_if-limiter false id req s = refl

  abbrev Limited : ℕ → RateLimiter → ℕ → Type 0
  Limited max r n = (r.max_per_minute ≡ max) × Room base b r.max_per_minute n (get u r.windows)

  own-Room :
      (n at : ℕ) (r : RateLimiter)
      → b ≤ at
      → at < b + minute
      → Room base b r.max_per_minute n (get u r.windows)
      → (let out = check_at r u at in
          Room base b r.max_per_minute (n + one_if out.0) (get u out.1.windows))
  unfolding check_at
  own-Room n at r lo hi h =
      own_window (Room base b r.max_per_minute (n + one_if (check_at r u at).0)) u r at
        (Room-step base b r.max_per_minute n at (get u r.windows) lo hi h)

  check_at-Room :
      (n at : ℕ) (r : RateLimiter) (v : ℤ)
      → b ≤ at
      → at < b + minute
      → Room base b r.max_per_minute n (get u r.windows)
      → (let out = check_at r v at in
          Room base b r.max_per_minute
            (n + (if v == u then one_if out.0 else 0))
            (get u out.1.windows))
  check_at-Room n at r v lo hi h = elim (Bool-cases (v == u)) [
    | inl same ↦ rw same (
        subst
          (λ x.
            Room base b r.max_per_minute (n + one_if (check_at r x at).0)
              (get u (check_at r x at).1.windows))
          (sym ((int_beq_iff v u).0 same)) (own-Room n at r lo hi h))
    | inr differs ↦ rw differs (
        other_window (Room base b r.max_per_minute (n + 0)) u v r at differs
          (subst (λ k. Room base b r.max_per_minute k (get u r.windows)) (omega arith) h))
  ]

  check_at-Limited :
      (max n at : ℕ) (r : RateLimiter) (req : NotificationRequest)
      → b ≤ at
      → at < b + minute
      → Limited max r n
      → (let out = check_at r req.user_telegram_id at in Limited max out.1 (n + more req out.0))
  unfolding check_at
  check_at-Limited max n at r req lo hi h =
      (h.0, check_at-Room n at r req.user_telegram_id lo hi h.1)

  -- What holds between two messages: a count that bounds the messages, and the room in the windows.
  record Bounded (max : ℕ) (s : NotifyService) : Type 0 where
    count : ℕ
    within : Within count s.world
    limited : Limited max s.rate_limiter count

  allowed :
      (max : ℕ) (id : ℤ) (req : NotificationRequest) (s : NotifyService)
      → Bounded max s
      → Bounded max (handle_for (some id) req s).1
  unfolding handle_for allow check_and_consume now ◌>>=◌
  allowed max id req s h =
      let at = s.clock s.calls in
      let at_minute =
        subst (λ v. (b ≤ v.clock s.calls) × (v.clock s.calls < b + minute)) (sym h.within.0)
          (in_minute s.calls) in
      let out = check_at s.rate_limiter req.user_telegram_id at in
      let next = record s { world = tick s.world; rate_limiter = out.1 } in
      record {
        count = h.count + more req out.0;
        within = deliver_if-Within out.0 id req h.count next h.within;
        limited =
            subst (λ r. Limited max r (h.count + more req out.0))
              (sym (deliver_if-limiter out.0 id req next))
              (check_at-Limited max h.count at s.rate_limiter req at_minute.0 at_minute.1
                h.limited);
      }

  -- The user is known, so that what passes the limiter by is for another chat.
  passed_by :
      (max : ℕ) (req : NotificationRequest) (s : NotifyService)
      → (req.user_telegram_id == u) ≡ false
      → Bounded max s
      → Bounded max (handle_for none req s).1
  unfolding handle_for serve_unknown
  passed_by max req s differs h = record {
    count = h.count;
    within =
        subst (λ k. Within k (send_with_retries s.bot_registry req s.world).1)
          (rw differs (omega arith)) (send-Within h.count s.bot_registry req s.world h.within);
    limited = h.limited;
  }

  not_unknown :
      (v : ℤ) (d : Db)
      → d.users ≡ users
      → find (λ x. x.telegram_id == v) d.users ≡ none
      → (v == u) ≡ false
  not_unknown v d same nobody = elim (Bool-cases (v == u)) [
    | inr differs ↦ differs
    | inl is_u ↦
        let nobody_is_u =
          subst (λ t. find (λ x. x.telegram_id == t) users ≡ none) ((int_beq_iff v u).0 is_u)
            (subst (λ us. find (λ x. x.telegram_id == v) us ≡ none) same nobody) in
        ground (arith, sym nobody_is_u ∙ found)
  ]

  ticked :
      (max : ℕ) (s : NotifyService)
      → Bounded max s
      → Bounded max (record s { world = tick s.world })
  ticked max s h = record { count = h.count; within = h.within; limited = h.limited }

  handle-Bounded :
      (max : ℕ) (req : NotificationRequest) (s : NotifyService)
      → Bounded max s
      → Bounded max (handle req s).1
  unfolding handle resolve_user_id_by_telegram ◌>>=◌ statement
  handle-Bounded max req s h =
      let idle = record s { world = tick s.world } in
      let idle_Bounded = ticked max s h in
      elim (Option-cases (s.db_fault s.calls)) [
        | inr (x, fault) ↦ rw (fault, statement) idle_Bounded
        | inl sound ↦
            rw (sound, statement)
              (elim (Option-cases (find (λ x. x.telegram_id == req.user_telegram_id) s.users)) [
                | inr (x, one) ↦ rw one (allowed max x.id req idle idle_Bounded)
                | inl nobody ↦ rw nobody (
                    passed_by max req idle
                      (not_unknown req.user_telegram_id s.db h.within.1.0 nobody) idle_Bounded)
              ])
      ]

  run-Bounded :
      (max : ℕ) (events : List Incoming) (s : NotifyService)
      → Bounded max s
      → Bounded max (run s events)
  unfolding run
  run-Bounded max [] s h = h
  run-Bounded max (cancelled ∷ events) s h = h
  run-Bounded max (closed ∷ events) s h = h
  run-Bounded max (received req ∷ events) s h =
      run-Bounded max events (handle req s).1 (handle-Bounded max req s h)

  at_most : (max : ℕ) (s : NotifyService) → Bounded max s → sends_to u s.sent ≤ base + 2 * max
  at_most max s h = elim h.limited.1.1 [
    | inl old ↦ omega (arith, h.limited.0, h.limited.1.0, old, h.within.1.1)
    | inr (new, starts) ↦ omega (arith, h.limited.0, h.limited.1.0, new, h.within.1.1)
  ]

-- A run of the service within a minute sends a user that the database knows at most twice
-- `max_per_minute` messages, after any earlier calls of the limiter, whatever is queued for whom and
-- whatever the database and Telegram refuse.
pub run-sends_to :
    (u : ℤ) (known : User) (b max : ℕ) (earlier : List Call) (events : List Incoming)
    (s : NotifyService)
    → find (λ x. x.telegram_id == u) s.users ≡ some known
    → ((i : ℕ) → (b ≤ s.clock i) × (s.clock i < b + minute))
    → s.rate_limiter ≡ after_calls (new_limiter max) earlier
    → sends_to u (run s events).sent ≤ sends_to u s.sent + 2 * max
run-sends_to u known b max earlier events s found in_minute limiter =
    let base = sends_to u s.sent in
    let cap = ap (λ r. r.max_per_minute) limiter ∙ calls-cap earlier (new_limiter max) in
    let counted =
      subst (λ r. count_of (get u r.windows) ≤ r.max_per_minute) (sym limiter)
        (calls-Capped u earlier (new_limiter max) (new-Capped u max)) in
    at_most u known b base s.env s.users found in_minute max (run s events) (
      run-Bounded u known b base s.env s.users found in_minute max events s (record {
        count = base;
        within = (refl, (refl, omega arith));
        limited = (cap, (counted, inl (omega arith)));
      }))
