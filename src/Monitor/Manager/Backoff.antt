-- ===== src/Monitor/Manager/Backoff.antt =====
-- manager.rs: the pauses between the sessions, and what the sessions publish.
use native.Mathlib.Nat.{mul-le-mul_left, pow-le-pow_right}
use mathlib.Core.List.{append-nil, append_assoc}
use poly_notifier.Common.{
  ℕ, ◌+◌, ◌-◌, ◌*◌, ◌^◌, ◌≤◌, ◌<◌, String, ◌≡◌, refl, sym, ◌∙◌, true, some, List, [], ◌∷◌, ◌++◌,
  map, flat_map, length, All, ltb, if◌then◌else◌, arith, Bool-cases, inl, inr,
}
use poly_notifier.Common.Dict.{Dict}
use poly_notifier.Store.Events.{PriceUpdate}
use poly_notifier.Interfaces.{DecimalOps}
use poly_notifier.Monitor.Manager.{
  Duration, duration_end, times, power_of_two, next_attempt, shorter, ConnectionManager,
  calculate_backoff, Session, over, Progress, reconnects, updates_of, any_of, paused, pause,
  session, run_sessions, idle,
}

-- The longest product that the backoff computes is a Duration.
abbrev pub Representable : ConnectionManager → Type 0
Representable m = m.reconnect_base_delay * (2 ^ 32 - 1) < duration_end

abbrev pub delay_of : ConnectionManager → ℕ → Duration
delay_of m attempt = shorter (m.reconnect_base_delay * power_of_two attempt) m.reconnect_max_delay

power_of_two-le : (k : ℕ) → power_of_two k ≤ 2 ^ 32 - 1
power_of_two-le k = elim (Bool-cases (ltb k 32)) [
  | inl small ↦ rw small (
      omega
        (arith, pow-le-pow_right {n = 2} (omega arith) {i = k} {j = 31} (ground (arith, small))))
  | inr large ↦ rw large (omega arith)
]

power_of_two_mono : (j k : ℕ) → j ≤ k → power_of_two j ≤ power_of_two k
power_of_two_mono j k le = elim (Bool-cases (ltb k 32)) [
  | inl small ↦
      let below : ltb j 32 ≡ true = ground (arith, small, le) in
      rw (small, below) (pow-le-pow_right (omega arith) le)
  | inr large ↦ rw large (power_of_two-le j)
]

times-some : (d k : ℕ) → d * k < duration_end → times d k ≡ some (d * k)
times-some d k h = ground (arith, h)

-- With a base delay whose longest multiple is a Duration, the backoff of every attempt is there: it
-- is the base times the power of two, or the longest delay where that is shorter.
backoff_lem :
    (m : ConnectionManager) (k : ℕ) → Representable m → calculate_backoff m k ≡ some (delay_of m k)
unfolding calculate_backoff
backoff_lem m k fits =
    rw
      (times-some m.reconnect_base_delay (power_of_two k)
        (omega (arith, fits, mul-le-mul_left m.reconnect_base_delay (power_of_two-le k))))
      refl

shorter_mono : (a b c : ℕ) → a ≤ b → (shorter a c ≤ shorter b c) × (shorter b c ≤ c)
shorter_mono a b c h = ground (arith, h)

-- The backoff never panics, never exceeds the longest delay, and never falls from one attempt to a
-- later one, if the largest multiple of the base delay is a Duration.
pub calculate_backoff-IsBounded :
    (m : ConnectionManager) (j k : ℕ)
    → Representable m
    → j ≤ k
    → (d : Duration) × ((e : Duration) × ((calculate_backoff m j ≡ some d)
          × ((calculate_backoff m k ≡ some e) × ((d ≤ e) × (e ≤ m.reconnect_max_delay)))))
calculate_backoff-IsBounded m j k fits le =
    let grows = mul-le-mul_left m.reconnect_base_delay (power_of_two_mono j k le) in
    (
      delay_of m j,
      (
        delay_of m k,
        (
          backoff_lem m j fits,
          (backoff_lem m k fits, shorter_mono _ _ m.reconnect_max_delay grows),
        ),
      ),
    )

module _ (n : DecimalOps) (m : ConnectionManager) (c : Dict String String) where
  abbrev IsOver : Session n → Type 0
  IsOver s = s.1 ≡ over

  -- For each pause, the sessions that ended since the latest one with an update, and those that were
  -- quiet at first where there is none.
  abbrev pub streaks : ℕ → List (Session n) → List ℕ
  streaks quiet [] = []
  streaks quiet (s ∷ sessions) =
      let now_quiet = if any_of n (updates_of n c s.0) then 0 else quiet in
      now_quiet ∷ streaks (now_quiet + 1) sessions

  session_over :
      (s : Session n) (p : Progress n)
      → Representable m
      → s.1 ≡ over
      → session n m c s p
        ≡ reconnects (
            paused n
              (record p {
                attempt = if any_of n (updates_of n c s.0) then 0 else p.attempt;
                published = p.published ++ updates_of n c s.0;
              })
              (delay_of m (if any_of n (updates_of n c s.0) then 0 else p.attempt)))
  unfolding session pause
  session_over s p fits e =
      rw (e, pause, backoff_lem m (if any_of n (updates_of n c s.0) then 0 else p.attempt) fits)
        refl

  abbrev updates : Session n → List (PriceUpdate n)
  updates s = updates_of n c s.0

  abbrev at : ℕ → List (PriceUpdate n) → List Duration → Progress n
  at a published delays = record { attempt = a; published = published; delays = delays }

  -- What a run of sessions comes to.
  abbrev Runs : List (Session n) → Progress n → List (PriceUpdate n) → List Duration → Type 0
  Runs sessions p published delays =
      (p' : Progress n) × ((run_sessions n m c sessions p ≡ reconnects p')
        × ((p'.published ≡ published) × (p'.delays ≡ delays)))

  abbrev now_quiet : Session n → ℕ → ℕ
  now_quiet s a = if any_of n (updates s) then 0 else a

  now_quiet-le : (s : Session n) (a : ℕ) → now_quiet s a ≤ a
  now_quiet-le s a = ground arith

  next_attempt-suc : (q : ℕ) → q < 2 ^ 32 - 1 → next_attempt q ≡ q + 1
  next_attempt-suc q h = ground (arith, h)

  run_cons :
      (s : Session n) (sessions : List (Session n)) (p p1 : Progress n)
      (published : List (PriceUpdate n)) (delays : List Duration)
      → session n m c s p ≡ reconnects p1
      → Runs sessions p1 published delays
      → Runs (s ∷ sessions) p published delays
  unfolding run_sessions
  run_cons s sessions p p1 published delays e h = rw (e, run_sessions) h

  each_session :
      (sessions : List (Session n)) (a : ℕ) (published : List (PriceUpdate n))
      (delays : List Duration)
      → Representable m
      → All IsOver sessions
      → a + length sessions < 2 ^ 32
      → Runs sessions
          (at a published delays)
          (published ++ flat_map updates sessions)
          (delays ++ map (delay_of m) (streaks a sessions))
  unfolding run_sessions
  each_session [] a published delays fits ends short =
      (_, (refl, (sym (append-nil published), sym (append-nil delays))))
  each_session (s ∷ sessions) a published delays fits ends short =
      let q = now_quiet s a in
      let low = now_quiet-le s a in
      let next = next_attempt-suc q (omega (arith, short, low)) in
      let rest =
        each_session sessions (q + 1) (published ++ updates s) (delays ++ delay_of m q ∷ []) fits
          ends.1 (omega (arith, short, low)) in
      run_cons s sessions (at a published delays) _ _ _
        (session_over s (at a published delays) fits ends.0)
        (rw next (
          rest.0,
          (
            rest.1.0,
            (
              rest.1.1.0 ∙ append_assoc published (updates s) (flat_map updates sessions),
              rest.1.1.1
                  ∙ append_assoc delays (delay_of m q ∷ [])
                      (map (delay_of m) (streaks (q + 1) sessions)),
            ),
          ),
        ))

-- While no session is cancelled, fewer than 2^32 sessions run and the largest multiple of the base
-- delay is a Duration, the manager pauses after every session for the base delay times a power of
-- two, at most for the longest delay: the power of the number of sessions that ended since the
-- latest one with an update, or since the first one where none had any, which saturates as the
-- source's does. What it publishes is the updates of the sessions in their order.
pub run_sessions-delays :
    (n : DecimalOps) (m : ConnectionManager) (c : Dict String String) (sessions : List (Session n))
    → Representable m
    → All (λ s. s.1 ≡ over) sessions
    → length sessions < 2 ^ 32
    → (p : Progress n) × ((run_sessions n m c sessions (idle n) ≡ reconnects p)
        × ((p.published ≡ flat_map (λ s. updates_of n c s.0) sessions)
            × (p.delays ≡ map (delay_of m) (streaks n m c 0 sessions))))
run_sessions-delays n m c sessions fits ends short =
    each_session n m c sessions 0 [] [] fits ends (omega (arith, short))
