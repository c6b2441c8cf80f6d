-- ===== src/Notify/RateLimiter/Steps.antt =====
-- rate_limiter.rs: what one call does to the windows, and sequences of calls.
use poly_notifier.Common.{
  ℕ, ◌+◌, ◌≤◌, ◌<◌, ℤ, ◌==◌, ◌≡◌, ◌∙◌, refl, Bool, true, false, Option, none, some, List, [], ◌∷◌,
  int_eq, int_beq_iff, ◌⊎◌, if◌then◌else◌, arith, beq_refl, sym,
}
use mathlib.Core.Path.{subst}
use poly_notifier.Common.Dict.{get, get-insert}
use poly_notifier.Notify.RateLimiter.{Window, RateLimiter, or_fresh, renew, consume, check_at}

-- A call: the user and the clock's reading.
abbrev pub Call : Type 0
Call = ℤ × ℕ

abbrev pub minute : ℕ
minute = 60_000_000_000

abbrev pub InMinute : ℕ → Call → Type 0
InMinute b (user_id, at) = (b ≤ at) × (at < b + minute)

-- The limiter after a sequence of calls.
unfoldable pub after_calls : RateLimiter → List Call → RateLimiter
after_calls r [] = r
after_calls r ((user_id, at) ∷ calls) = after_calls (check_at r user_id at).1 calls

abbrev pub one_if : Bool → ℕ
one_if b = if b then 1 else 0

-- How many calls of a user a sequence of calls answers with true.
unfoldable pub accepted : ℤ → RateLimiter → List Call → ℕ
accepted u r [] = 0
accepted u r ((user_id, at) ∷ calls) =
    (if user_id == u then one_if (check_at r user_id at).0 else 0)
    + accepted u (check_at r user_id at).1 calls

-- The room that is left: in a window that began within the minute, and in an older one.
abbrev pub count_of : Option Window → ℕ
count_of none = 0
count_of (some w) = w.0

-- The user's window does not count more than the cap.
abbrev pub Capped : ℤ → RateLimiter → Type 0
Capped u r = count_of (get u r.windows) ≤ r.max_per_minute

abbrev pub StartsIn : ℕ → Option Window → Type 0
StartsIn b none = Unit
StartsIn b (some w) = (b ≤ w.1) × (w.1 < b + minute)

-- One step on the window of the calling user.
pub step_fresh :
    (max b at : ℕ) (o : Option Window)
    → b ≤ at
    → at < b + minute
    → StartsIn b o
    → count_of o ≤ max
    → (let (ok, w) = consume max (renew (or_fresh o at) at) in
        (one_if ok + count_of o ≡ w.0) × ((w.0 ≤ max) × ((b ≤ w.1) × (w.1 < b + minute))))
unfolding consume renew
step_fresh max b at none lo hi s c = ground arith
step_fresh max b at (some (count, start)) lo hi s c = ground arith

-- A window that was begun before: it goes on, or begins anew.
pub step_any :
    (max at : ℕ) (o : Option Window)
    → count_of o ≤ max
    → (let (ok, w) = consume max (renew (or_fresh o at) at) in
        (w.0 ≤ max) × ((one_if ok + count_of o ≡ w.0) ⊎ ((one_if ok ≡ w.0) × (w.1 ≡ at))))
unfolding consume renew
step_any max at none c = ground arith
step_any max at (some (count, start)) c = ground arith

-- A call touches the window of its user only.
get-check_at :
    (r : RateLimiter) (user_id u : ℤ) (at : ℕ)
    → get u (check_at r user_id at).1.windows ≡ (
        if user_id == u
        then some (consume r.max_per_minute (renew (or_fresh (get user_id r.windows) at) at)).1
        else get u r.windows)
unfolding check_at
get-check_at r user_id u at = get-insert user_id u _ r.windows

-- What a call of the user itself does, and what a call of another one does.
abbrev step_of : RateLimiter → ℤ → ℕ → Bool × Window
step_of r u at = consume r.max_per_minute (renew (or_fresh (get u r.windows) at) at)

get-own :
    (r : RateLimiter) (u : ℤ) (at : ℕ) → get u (check_at r u at).1.windows ≡ some (step_of r u at).1
get-own r u at = get-check_at r u u at ∙ rw (beq_refl u) refl

pub accepted-own :
    (r : RateLimiter) (u : ℤ) (at : ℕ) (calls : List Call)
    → accepted u r ((u, at) ∷ calls)
      ≡ one_if (step_of r u at).0 + accepted u (check_at r u at).1 calls
unfolding accepted check_at
accepted-own r u at calls = rw (beq_refl u) refl

get-other :
    (r : RateLimiter) (user_id u : ℤ) (at : ℕ)
    → (user_id == u) ≡ false
    → get u (check_at r user_id at).1.windows ≡ get u r.windows
get-other r user_id u at differs = get-check_at r user_id u at ∙ rw differs refl

accepted-other :
    (r : RateLimiter) (user_id u : ℤ) (at : ℕ) (calls : List Call)
    → (user_id == u) ≡ false
    → accepted u r ((user_id, at) ∷ calls) ≡ accepted u (check_at r user_id at).1 calls
unfolding accepted
accepted-other r user_id u at calls differs = rw differs (omega arith)

-- A bound on the calls that a sequence accepts and on those already counted follows for every user.
abbrev pub Bounded : ℤ → RateLimiter → List Call → ℕ → Type 0
Bounded u r calls n = accepted u r calls + count_of (get u r.windows) ≤ n

pub other_bound :
    (u user_id : ℤ) (r : RateLimiter) (at : ℕ) (calls : List Call) (n : ℕ)
    → (user_id == u) ≡ false
    → Bounded u (check_at r user_id at).1 calls n
    → Bounded u r ((user_id, at) ∷ calls) n
other_bound u user_id r at calls n differs h = rw (accepted-other r user_id u at calls differs) (
    subst (λ o. accepted u (check_at r user_id at).1 calls + count_of o ≤ n)
      (get-other r user_id u at differs) h)

pub at_user :
    (u user_id : ℤ) (r : RateLimiter) (at : ℕ) (calls : List Call) (n : ℕ)
    → (user_id == u) ≡ true
    → Bounded u r ((u, at) ∷ calls) n
    → Bounded u r ((user_id, at) ∷ calls) n
at_user u user_id r at calls n same =
    subst (λ v. Bounded u r ((v, at) ∷ calls) n) (sym ((int_beq_iff user_id u).0 same))

-- The user's window after a call of his own, in terms of the step.
pub own_bound :
    (u : ℤ) (r : RateLimiter) (at : ℕ) (calls : List Call) (n : ℕ)
    → Bounded u (check_at r u at).1 calls n
    → accepted u (check_at r u at).1 calls + (step_of r u at).1.0 ≤ n
own_bound u r at calls n =
    subst (λ o. accepted u (check_at r u at).1 calls + count_of o ≤ n) (get-own r u at)

pub own_window {ℓ} :
    (P : Option Window → Type ℓ) (u : ℤ) (r : RateLimiter) (at : ℕ)
    → P (some (step_of r u at).1)
    → P (get u (check_at r u at).1.windows)
own_window P u r at = subst P (sym (get-own r u at))

pub other_window {ℓ} :
    (P : Option Window → Type ℓ) (u user_id : ℤ) (r : RateLimiter) (at : ℕ)
    → (user_id == u) ≡ false
    → P (get u r.windows)
    → P (get u (check_at r user_id at).1.windows)
other_window P u user_id r at differs = subst P (sym (get-other r user_id u at differs))

abbrev pub AtMost : ℕ → Option Window → Type 0
AtMost max o = count_of o ≤ max
