-- ===== src/Fuse/Breaker.antt =====
-- The state of a fuse and its transitions: `_trip`, `is_tripped`, `remaining_cooldown_sec`,
-- `manual_reset` and `_next_escalated_cooldown` of runtime/core/api_fuse.py, over the grace window,
-- which is the one constant in which runtime/core/order_fuse.py differs here.
-- Times are readings of `time.monotonic()` in milliseconds and are arguments; cooldowns are whole
-- seconds, as in the source. A percentage is a number of hundredths of a percent, and the test
-- `used / limit * 100 >= threshold_pct` is the exact one on fractions.
use pecunator_accu_monetas.Prelude.{
  ℕ, ◌+◌, ◌-◌, ◌*◌, ◌^◌, min, max, Bool, true, false, ◌&&◌, ◌||◌, Option, none, some, ltb, leb,
  ◌==◌, if◌then◌else◌,
}
use pecunator_accu_monetas.Prelude.Int.{ℤ, pos_part}

-- Why the fuse tripped: the used weight or order count, or the error code of the exchange.
pub data Reason : Type 0 where
  over_threshold : ℕ → Reason
  error_code : ℤ → Reason

pub record Breaker : Type 0 where
  pub threshold : ℕ
  pub base_cooldown_sec : ℕ
  pub limit : ℕ
  pub max_cooldown_sec : ℕ
  pub tripped : Bool
  pub tripped_at : ℕ
  pub reset_at : ℕ
  pub current_cooldown : ℕ
  pub trip_reason : Option Reason
  pub trip_count : ℕ
  pub consecutive_streak : ℕ

-- Milliseconds in so many seconds.
abbrev pub ms : ℕ → ℕ
ms sec = sec * 1000

-- `__init__`, over the least cooldown that the class accepts. A negative argument is raised to the
-- bound, as 0 is.
unfoldable pub init : ℕ → ℤ → ℤ → ℤ → ℤ → Breaker
init least threshold_pct cooldown_sec limit max_cooldown_sec =
    let base = max least (pos_part cooldown_sec) in
    record {
      threshold = max 1000 (min (pos_part threshold_pct) 9900);
      base_cooldown_sec = base;
      limit = max 1 (pos_part limit);
      max_cooldown_sec = max base (pos_part max_cooldown_sec);
      tripped = false;
      tripped_at = 0;
      reset_at = 0;
      current_cooldown = base;
      trip_reason = none;
      trip_count = 0;
      consecutive_streak = 0;
    }

-- `pct >= self.threshold_pct`
unfoldable pub is_over : ℕ → Breaker → Bool
is_over used b = leb (b.threshold * b.limit) (used * 10000)

-- `self._reset_at > 0 and (now - self._reset_at) < _GRACE_WINDOW_SEC`
unfoldable pub in_grace_window : ℕ → ℕ → Breaker → Bool
in_grace_window grace now b = ltb 0 b.reset_at && ltb (now - b.reset_at) (ms grace)

-- The streak of a trip at `now`.
unfoldable pub next_streak : ℕ → ℕ → Breaker → ℕ
next_streak grace now b =
    if in_grace_window grace now b || b.consecutive_streak == 0 then b.consecutive_streak + 1 else 1

-- `min(base * 2 ** (streak - 1), max)`
unfoldable pub backoff : ℕ → Breaker → ℕ
backoff streak b = min (b.base_cooldown_sec * 2 ^ (streak - 1)) b.max_cooldown_sec

-- `_next_escalated_cooldown`
unfoldable pub next_escalated_cooldown : ℕ → ℕ → Breaker → ℕ
next_escalated_cooldown grace now b = backoff (next_streak grace now b) b

-- `_trip`; the last argument but one is `force_max`.
unfoldable pub trip : ℕ → ℕ → Reason → Bool → Breaker → Breaker
trip grace now reason force_max b =
    let streak = next_streak grace now b in
    if b.tripped then b else record b {
      consecutive_streak = streak;
      current_cooldown = if force_max then b.max_cooldown_sec else backoff streak b;
      tripped = true;
      tripped_at = now;
      trip_reason = some reason;
      trip_count = b.trip_count + 1;
    }

-- `is_tripped`, which reads the clock once for the elapsed time and once for the time of the reset.
unfoldable pub is_tripped : ℕ → ℕ → Breaker → Breaker × Bool
is_tripped now now' b =
    if b.tripped
    then (if leb (ms b.current_cooldown) (now - b.tripped_at)
        then (record b { reset_at = now'; tripped = false }, false)
        else (b, true))
    else (b, false)

-- `remaining_cooldown_sec`, in milliseconds. Subtraction on ℕ stops at 0, which is the `max(0.0, …)`.
unfoldable pub remaining_cooldown : ℕ → Breaker → ℕ
remaining_cooldown now b = if b.tripped then ms b.current_cooldown - (now - b.tripped_at) else 0

-- `manual_reset`
unfoldable pub manual_reset : ℕ → Breaker → Breaker
manual_reset now b = record b {
  tripped = false;
  consecutive_streak = 0;
  current_cooldown = b.base_cooldown_sec;
  reset_at = now;
}
