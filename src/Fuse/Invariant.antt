-- ===== src/Fuse/Invariant.antt =====
-- What holds of the fuses of runtime/core/api_fuse.py and runtime/core/order_fuse.py after any
-- sequence of calls.
use native.Mathlib.Nat.{pow-suc}
use pecunator_accu_monetas.Prelude.{
  ℕ, zero, suc, ◌+◌, ◌-◌, ◌^◌, ◌≤◌, ◌<◌, ◌≡◌, Bool, true, false, List, [], ◌∷◌, arith,
}
use pecunator_accu_monetas.Prelude.Int.{ℤ, pos_part}
use pecunator_accu_monetas.Fuse.Breaker
use pecunator_accu_monetas.Fuse.Breaker.{Breaker, Reason}
use pecunator_accu_monetas.Fuse.Order
use pecunator_accu_monetas.Fuse.Api
use pecunator_accu_monetas.Fuse.Api.{Fuses}
use pecunator_accu_monetas.Fuse.Calls.{Call, apply, apply_all}

-- The settings are in range, the cooldown lies between the base and the ceiling, and a tripped fuse
-- has a streak, which counts some of its trips.
pub record IsValid (b : Breaker) : Type 0 where
  pub threshold_low : 1000 ≤ b.threshold
  pub threshold_high : b.threshold ≤ 9900
  pub limit_pos : 0 < b.limit
  pub base_pos : 0 < b.base_cooldown_sec
  pub cooldown_low : b.base_cooldown_sec ≤ b.current_cooldown
  pub cooldown_high : b.current_cooldown ≤ b.max_cooldown_sec
  pub streak_live : b.tripped ≡ true → 0 < b.consecutive_streak
  pub streak_counted : b.consecutive_streak ≤ b.trip_count

pub pow-pos : (n : ℕ) → 0 < 2 ^ n
pow-pos zero = omega arith
pow-pos (suc n) = simp pow-suc (omega (arith, pow-pos n))

-- The backed-off cooldown lies between the base and the ceiling.
pub backoff_bounds :
    (streak : ℕ) (b : Breaker)
    → b.base_cooldown_sec ≤ b.max_cooldown_sec
    → (b.base_cooldown_sec ≤ Breaker.backoff streak b)
      × (Breaker.backoff streak b ≤ b.max_cooldown_sec)
unfolding Breaker.backoff
backoff_bounds streak b h = grind (arith, pow-pos (streak - 1))

-- A trip adds one to the streak or starts it again at one.
pub next_streak_bounds :
    (grace now : ℕ) (b : Breaker)
    → (0 < Breaker.next_streak grace now b)
      × (Breaker.next_streak grace now b ≤ b.consecutive_streak + 1)
unfolding Breaker.next_streak
next_streak_bounds grace now b = ground arith

pub init-IsValid : (least : ℕ) (t c l m : ℤ) → 0 < least → IsValid (Breaker.init least t c l m)
unfolding Breaker.init
init-IsValid least t c l m h = ground arith

pub trip-IsValid :
    (grace now : ℕ) (r : Reason) (force : Bool) (b : Breaker)
    → IsValid b
    → IsValid (Breaker.trip grace now r force b)
unfolding Breaker.trip
trip-IsValid grace now r force b v =
    ground
      (arith, next_streak_bounds grace now b, backoff_bounds (Breaker.next_streak grace now b) b)

pub is_tripped-IsValid :
    (now now' : ℕ) (b : Breaker) → IsValid b → IsValid (Breaker.is_tripped now now' b).0
unfolding Breaker.is_tripped
is_tripped-IsValid now now' b v = ground arith

pub manual_reset-IsValid :
    (now : ℕ) (b : Breaker) → IsValid b → IsValid (Breaker.manual_reset now b)
unfolding Breaker.manual_reset
manual_reset-IsValid now b v = ground arith

-- Both fuses are valid.
abbrev pub AreValid : Fuses → Type 0
AreValid s = IsValid s.api × IsValid s.order

api_trip-AreValid :
    (now : ℕ) (r : Reason) (force : Bool) (s : Fuses)
    → AreValid s
    → AreValid (Api.trip now r force s)
unfolding Api.trip
api_trip-AreValid now r force s v =
    ground (arith, trip-IsValid Api.grace_window_sec now r force s.api v.0)

api_is_tripped-AreValid :
    (now now' : ℕ) (s : Fuses) → AreValid s → AreValid (Api.is_tripped now now' s).0
unfolding Api.is_tripped
api_is_tripped-AreValid now now' s v = ground (arith, is_tripped-IsValid now now' s.api v.0)

check_weight-AreValid :
    (used : ℤ) (now now' : ℕ) (s : Fuses)
    → AreValid s
    → AreValid (Api.check_weight used now now' s).0
unfolding Api.check_weight
check_weight-AreValid used now now' s v = ground (
  arith,
  api_trip-AreValid now (Reason.over_threshold (pos_part used)) false s v,
  api_is_tripped-AreValid now now' s v,
)

order-on_error_code-IsValid :
    (code : ℤ) (now : ℕ) (b : Breaker) → IsValid b → IsValid (Order.on_error_code code now b).0
unfolding Order.on_error_code
order-on_error_code-IsValid code now b v =
    ground (arith, trip-IsValid Order.grace_window_sec now (Reason.error_code code) true b v)

pub order-check_order_count-IsValid :
    (n : ℤ) (now now' : ℕ) (b : Breaker)
    → IsValid b
    → IsValid (Order.check_order_count n now now' b).0
unfolding Order.check_order_count
order-check_order_count-IsValid n now now' b v = ground (
  arith,
  trip-IsValid Order.grace_window_sec now (Reason.over_threshold (pos_part n)) false b v,
  is_tripped-IsValid now now' b v,
)

on_error_code-AreValid :
    (code : ℤ) (now now' : ℕ) (s : Fuses)
    → AreValid s
    → AreValid (Api.on_error_code code now now' s).0
unfolding Api.on_error_code
on_error_code-AreValid code now now' s v =
    let valid = api_trip-AreValid now (Reason.error_code code) true s v in
    let order =
      order-on_error_code-IsValid code now' (Api.trip now (Reason.error_code code) true s).order
        valid.1 in
    ground arith

apply-AreValid : (c : Call) (s : Fuses) → AreValid s → AreValid (apply c s)
unfolding apply Api.manual_reset
apply-AreValid (Call.check_weight used now now') s v = check_weight-AreValid used now now' s v
apply-AreValid (Call.on_error_code code now now') s v = on_error_code-AreValid code now now' s v
apply-AreValid (Call.is_tripped now now') s v = api_is_tripped-AreValid now now' s v
apply-AreValid (Call.manual_reset now) s v = (manual_reset-IsValid now s.api v.0, v.1)

apply_all-AreValid : (cs : List Call) (s : Fuses) → AreValid s → AreValid (apply_all cs s)
unfolding apply_all
apply_all-AreValid [] s v = v
apply_all-AreValid (c ∷ cs) s v = apply_all-AreValid cs (apply c s) (apply-AreValid c s v)

-- Fuses built by the constructors from any settings, after any sequence of calls of the API fuse,
-- have their thresholds within 10 % and 99 %, cooldowns between the base and the ceiling, a live
-- streak while tripped, and a streak of at most the trips so far.
pub fuses_stay_valid :
    (t c l m t' c' l' m' : ℤ) (calls : List Call)
    → AreValid (
        apply_all calls
          (record { api = Api.init t c l m; order = Order.init t' c' l' m'; alerts = [] }))
unfolding Api.init Order.init
fuses_stay_valid t c l m t' c' l' m' calls =
    apply_all-AreValid calls _
      (init-IsValid 30 t c l m (omega arith), init-IsValid 5 t' c' l' m' (omega arith))
