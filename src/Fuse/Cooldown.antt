-- ===== src/Fuse/Cooldown.antt =====
-- How long a fuse of runtime/core/api_fuse.py blocks, and what reaches it while it does.
use pecunator_accu_monetas.Prelude.{ℕ, ◌-◌, ◌*◌, ◌≤◌, ◌<◌, ◌≡◌, ◌↔◌, Bool, true, false, arith}
use pecunator_accu_monetas.Prelude.Int.{ℤ, negsuc, pos_part, ◌≤ℤ◌, pos}
use pecunator_accu_monetas.Fuse.Breaker
use pecunator_accu_monetas.Fuse.Breaker.{Breaker, Reason, ms}
use pecunator_accu_monetas.Fuse.Order
use pecunator_accu_monetas.Fuse.Api
use pecunator_accu_monetas.Fuse.Api.{Fuses}

-- A fuse reports itself tripped exactly while its remaining cooldown is positive.
pub is_tripped_iff-remaining_cooldown :
    (now now' : ℕ) (b : Breaker)
    → ((Breaker.is_tripped now now' b).1 ≡ true) ↔ (0 < Breaker.remaining_cooldown now b)
unfolding Breaker.is_tripped Breaker.remaining_cooldown
is_tripped_iff-remaining_cooldown now now' b = ground arith

-- A trip of a closed fuse at `now` blocks at a later reading exactly while less time has passed than
-- the cooldown that the trip chose.
trip_blocks :
    (grace now : ℕ) (r : Reason) (force : Bool) (t t' : ℕ) (b : Breaker)
    → b.tripped ≡ false
    → let b' = Breaker.trip grace now r force b in
      ((Breaker.is_tripped t t' b').1 ≡ true) ↔ (t - now < ms b'.current_cooldown)
unfolding Breaker.is_tripped Breaker.trip
trip_blocks grace now r force t t' b closed = ground arith

-- A fatal error code that reaches a closed API fuse at `now` blocks every later check at `t` exactly
-- while less than the longest cooldown has passed since `now`, and is reported as a trip.
pub fatal_code_blocks :
    (code : ℤ) (now now' t t' : ℕ) (s : Fuses)
    → Api.is_fatal_code code ≡ true
    → s.api.tripped ≡ false
    → let (s', tripped) = Api.on_error_code code now now' s in
      (tripped ≡ true)
      × (((Api.is_tripped t t' s').1 ≡ true) ↔ (t - now < ms s.api.max_cooldown_sec))
unfolding Api.on_error_code Api.trip Api.is_tripped Breaker.trip Breaker.is_tripped
fatal_code_blocks code now now' t t' s fatal closed = ground arith

-- The code -1015 leaves both fuses tripped, whatever their state was.
pub order_rate_code_trips_both :
    (now now' : ℕ) (s : Fuses)
    → let (s', tripped) = Api.on_error_code (negsuc 1014) now now' s in
      (tripped ≡ true) × (s'.api.tripped ≡ true) × (s'.order.tripped ≡ true)
unfolding Api.on_error_code Api.trip Order.on_error_code Breaker.trip
order_rate_code_trips_both now now' s = ground arith

-- Once the API fuse is tripped, neither an error code nor a weight over the threshold changes it: a
-- fatal code in mid-cooldown does not lengthen the cooldown to the longest one.
pub trip_in_cooldown_ignored :
    (code used : ℤ) (now now' : ℕ) (s : Fuses)
    → s.api.tripped ≡ true
    → pos 1 ≤ℤ used
    → Breaker.is_over (pos_part used) s.api ≡ true
    → ((Api.on_error_code code now now' s).0.api ≡ s.api)
      × (Api.check_weight used now now' s ≡ (s, true))
unfolding Api.on_error_code Api.check_weight Api.trip
trip_in_cooldown_ignored code used now now' s tripped positive over = ground arith

-- A weight over the threshold that is read after the cooldown has run out, and before any other
-- call, is reported as a trip, but the very next check finds the fuse closed and lets calls pass.
pub over_threshold_at_expiry_lost :
    (used : ℤ) (now now' t t' : ℕ) (s : Fuses)
    → s.api.tripped ≡ true
    → pos 1 ≤ℤ used
    → Breaker.is_over (pos_part used) s.api ≡ true
    → ms s.api.current_cooldown ≤ now - s.api.tripped_at
    → now ≤ t
    → let (s', tripped) = Api.check_weight used now now' s in
      (tripped ≡ true) × ((Api.is_tripped t t' s').1 ≡ false)
unfolding Api.check_weight Api.trip Api.is_tripped Breaker.is_tripped
over_threshold_at_expiry_lost used now now' t t' s tripped positive over expired later =
    ground arith

-- A weight over the threshold on a closed fuse trips it; a weight of at least 1 below the threshold
-- and a missing weight leave a closed fuse as it is.
pub check_weight_closed :
    (used : ℤ) (now now' : ℕ) (s : Fuses)
    → s.api.tripped ≡ false
    → ((Api.check_weight used now now' s).1 ≡ (Api.check_weight used now now' s).0.api.tripped)
      × (((Api.check_weight used now now' s).1 ≡ true)
          ↔ ((pos 1 ≤ℤ used) × (s.api.threshold * s.api.limit ≤ pos_part used * 10000)))
unfolding Api.check_weight Api.trip Api.is_tripped Breaker.trip Breaker.is_tripped Breaker.is_over
check_weight_closed used now now' s closed = ground arith
