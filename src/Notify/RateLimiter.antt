-- ===== src/Notify/RateLimiter.antt =====
-- crates/pn-notify/src/rate_limiter.rs: the window of each Telegram user.
pub mod Steps
pub mod Bounds
use poly_notifier.Common.{
  ℕ, ◌+◌, ◌/◌, ℤ, pos, negsuc, Bool, true, false, Option, none, some, List, [], ◌∷◌, int_eq,
  if◌then◌else◌, leb, leb_ℤ, sub_ℕ,
}
use poly_notifier.Common.Dict.{Dict, get, insert}
use poly_notifier.Store.World.{World, Exec, pure, ◌>>=◌, now}

-- A window is the count of messages in it and its start.
abbrev pub Window : Type 0
Window = ℕ × ℕ

pub record RateLimiter : Type 0 where
  pub windows : Dict ℤ Window
  pub max_per_minute : ℕ

-- RateLimiter::new
abbrev pub new_limiter : ℕ → RateLimiter
new_limiter max_per_minute = record { windows = []; max_per_minute = max_per_minute }

-- chrono::Duration::num_seconds, which rounds towards zero
abbrev pub num_seconds : ℤ → ℤ
num_seconds (pos n) = pos (n / 1_000_000_000)
num_seconds (negsuc n) = sub_ℕ 0 ((n + 1) / 1_000_000_000)

-- entry(user_id).or_insert((0, now))
abbrev pub or_fresh : Option Window → ℕ → Window
or_fresh none at = (0, at)
or_fresh (some window) at = window

-- Reset the counter when the current window has expired.
unfoldable pub renew : Window → ℕ → Window
renew (count, start) at =
    if leb_ℤ (pos 60) (num_seconds (sub_ℕ at start)) then (0, at) else (count, start)

-- The answer, and the window with the message counted.
unfoldable pub consume : ℕ → Window → Bool × Window
consume max (count, start) =
    if leb max count then (false, (count, start)) else (true, (count + 1, start))

abbrev pub store_window : RateLimiter → ℤ → Bool × Window → Bool × RateLimiter
store_window r user_id (answer, window) =
    (answer, record r { windows = insert user_id window r.windows })

-- The body of `check_and_consume` once the clock is read.
unfoldable pub check_at : RateLimiter → ℤ → ℕ → Bool × RateLimiter
unfolding get renew consume
check_at r user_id at =
    store_window r user_id
      (consume r.max_per_minute (renew (or_fresh (get user_id r.windows) at) at))

-- The limiter is shared and mutated in the source; here the new one comes back.
unfoldable pub check_and_consume : RateLimiter → ℤ → Exec World (Bool × RateLimiter)
unfolding check_at
check_and_consume r user_id = do at ← now; pure (check_at r user_id at)
