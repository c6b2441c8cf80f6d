-- ===== src/Notify/RateLimiter/Bounds.antt =====
-- rate_limiter.rs: how many messages of a user pass the limiter within a minute.
use poly_notifier.Common.{
  ℕ, ◌*◌, ◌≤◌, ℤ, ◌==◌, ◌≡◌, refl, List, [], ◌∷◌, int_eq, int_beq_iff, arith, All, Bool-cases, inl,
  inr, sym,
}
use mathlib.Core.Path.{subst}
use poly_notifier.Common.Dict.{get}
use poly_notifier.Notify.RateLimiter.{RateLimiter, new_limiter, check_at}
use poly_notifier.Notify.RateLimiter.Steps.{
  Call, InMinute, after_calls, accepted, count_of, Capped, StartsIn, step_fresh, step_any,
  accepted-own, Bounded, other_bound, at_user, own_bound, own_window, other_window, AtMost,
}

-- From a window of this minute no more than the room in it passes.
accepted_fresh :
    (u : ℤ) (b : ℕ) (calls : List Call) (r : RateLimiter)
    → Capped u r
    → StartsIn b (get u r.windows)
    → All (InMinute b) calls
    → Bounded u r calls r.max_per_minute
unfolding accepted check_at
accepted_fresh u b [] r c s h = omega (arith, c)
accepted_fresh u b ((user_id, at) ∷ calls) r c s h = elim (Bool-cases (user_id == u)) [
  | inl same ↦
      let step = step_fresh r.max_per_minute b at (get u r.windows) h.0.0 h.0.1 s c in
      let rest = own_bound u r at calls r.max_per_minute (
        accepted_fresh u b calls (check_at r u at).1
          (own_window (AtMost r.max_per_minute) u r at step.1.0)
          (own_window (StartsIn b) u r at step.1.1) h.1) in
      at_user u user_id r at calls r.max_per_minute same
        (rw (accepted-own r u at calls) (omega (arith, step.0, rest)))
  | inr differs ↦ other_bound u user_id r at calls r.max_per_minute differs (
      accepted_fresh u b calls (check_at r user_id at).1
        (other_window (AtMost r.max_per_minute) u user_id r at differs c)
        (other_window (StartsIn b) u user_id r at differs s) h.1)
]

-- From any window at most one other begins within the minute.
accepted_any :
    (u : ℤ) (b : ℕ) (calls : List Call) (r : RateLimiter)
    → Capped u r
    → All (InMinute b) calls
    → Bounded u r calls (2 * r.max_per_minute)
unfolding accepted check_at
accepted_any u b [] r c h = omega (arith, c)
accepted_any u b ((user_id, at) ∷ calls) r c h = elim (Bool-cases (user_id == u)) [
  | inl same ↦
      let step = step_any r.max_per_minute at (get u r.windows) c in
      let capped = own_window (AtMost r.max_per_minute) u r at step.0 in
      at_user u user_id r at calls (2 * r.max_per_minute) same (
        rw (accepted-own r u at calls) (elim step.1 [
          | inl goes_on ↦
              let rest =
                own_bound u r at calls (2 * r.max_per_minute)
                  (accepted_any u b calls (check_at r u at).1 capped h.1) in
              omega (arith, goes_on, rest)
          | inr (one, begins) ↦
              let rest = own_bound u r at calls r.max_per_minute (
                accepted_fresh u b calls (check_at r u at).1 capped
                  (own_window (StartsIn b) u r at (rw begins h.0)) h.1) in
              omega (arith, one, rest, c)
        ]))
  | inr differs ↦ other_bound u user_id r at calls (2 * r.max_per_minute) differs (
      accepted_any u b calls (check_at r user_id at).1
        (other_window (AtMost r.max_per_minute) u user_id r at differs c) h.1)
]

check_at-Capped :
    (u user_id : ℤ) (r : RateLimiter) (at : ℕ) → Capped u r → Capped u (check_at r user_id at).1
unfolding check_at
check_at-Capped u user_id r at c = elim (Bool-cases (user_id == u)) [
  | inl same ↦
      subst (λ v. Capped u (check_at r v at).1) (sym ((int_beq_iff user_id u).0 same))
        (own_window (AtMost r.max_per_minute) u r at
          (step_any r.max_per_minute at (get u r.windows) c).0)
  | inr differs ↦ other_window (AtMost r.max_per_minute) u user_id r at differs c
]

pub calls-Capped :
    (u : ℤ) (calls : List Call) (r : RateLimiter) → Capped u r → Capped u (after_calls r calls)
unfolding after_calls
calls-Capped u [] r c = c
calls-Capped u ((user_id, at) ∷ calls) r c =
    calls-Capped u calls (check_at r user_id at).1 (check_at-Capped u user_id r at c)

pub calls-cap :
    (calls : List Call) (r : RateLimiter) → (after_calls r calls).max_per_minute ≡ r.max_per_minute
unfolding after_calls check_at
calls-cap [] r = refl
calls-cap ((user_id, at) ∷ calls) r = calls-cap calls (check_at r user_id at).1

pub new-Capped : (u : ℤ) (max : ℕ) → Capped u (new_limiter max)
unfolding get
new-Capped u max = omega arith

-- After any calls of any users, no window counts more messages than the cap, so that the `u32`
-- counter does not overflow.
pub count-le :
    (u : ℤ) (max : ℕ) (calls : List Call)
    → count_of (get u (after_calls (new_limiter max) calls).windows) ≤ max
count-le u max calls =
    subst (λ n. count_of (get u (after_calls (new_limiter max) calls).windows) ≤ n)
      (calls-cap calls (new_limiter max))
      (calls-Capped u calls (new_limiter max) (new-Capped u max))

-- Within any minute, a new limiter answers true to at most `max_per_minute` calls of a user,
-- whatever calls of other users stand between them.
pub first_minute :
    (u : ℤ) (max b : ℕ) (calls : List Call)
    → All (InMinute b) calls
    → accepted u (new_limiter max) calls ≤ max
unfolding get
first_minute u max b calls h =
    omega (arith, accepted_fresh u b calls (new_limiter max) (new-Capped u max) tt h)

-- Within any minute, after any earlier calls, the limiter answers true to at most twice
-- `max_per_minute` calls of a user.
pub any_minute :
    (u : ℤ) (max b : ℕ) (earlier calls : List Call)
    → All (InMinute b) calls
    → accepted u (after_calls (new_limiter max) earlier) calls ≤ 2 * max
any_minute u max b earlier calls h =
    let r = after_calls (new_limiter max) earlier in
    let bound =
      accepted_any u b calls r (calls-Capped u earlier (new_limiter max) (new-Capped u max)) h in
    omega (arith, bound, calls-cap earlier (new_limiter max))
