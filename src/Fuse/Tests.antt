-- ===== src/Fuse/Tests.antt =====
-- The fuses of runtime/core/api_fuse.py with their default settings, at concrete readings.
use pecunator_accu_monetas.Prelude.{
  ◌*◌, ◌^◌, ◌≡◌, refl, min, true, false, none, List, [], ◌∷◌, arith,
}
use pecunator_accu_monetas.Prelude.Int.{pos, negsuc}
use pecunator_accu_monetas.Fuse.Breaker
use pecunator_accu_monetas.Fuse.Breaker.{Breaker, Reason, ms}
use pecunator_accu_monetas.Fuse.Order
use pecunator_accu_monetas.Fuse.Api
use pecunator_accu_monetas.Fuse.Api.{Fuses, Alert}
use pecunator_accu_monetas.Fuse.Calls
use pecunator_accu_monetas.Fuse.Calls.{Call, apply_all}
use pecunator_accu_monetas.Fuse.Invariant.{AreValid, IsValid, fuses_stay_valid}
use pecunator_accu_monetas.Fuse.Escalation.{Retrip, retrips, trips_back_off}

abbrev closed_api : Breaker
closed_api = record {
  threshold = 8000;
  base_cooldown_sec = 300;
  limit = 6000;
  max_cooldown_sec = 3600;
  tripped = false;
  tripped_at = 0;
  reset_at = 0;
  current_cooldown = 300;
  trip_reason = none;
  trip_count = 0;
  consecutive_streak = 0;
}

-- Tripped at 5 s by a weight of 5000.
abbrev tripped_api : Breaker
tripped_api = record closed_api {
  tripped = true;
  tripped_at = 5000;
  trip_count = 1;
  consecutive_streak = 1;
}

abbrev closed_order : Breaker
closed_order = record closed_api {
  threshold = 7000;
  base_cooldown_sec = 15;
  limit = 100;
  max_cooldown_sec = 120;
  current_cooldown = 15;
}

abbrev closed : Fuses
closed = record { api = closed_api; order = closed_order; alerts = [] }

abbrev tripped : Fuses
tripped = record { api = tripped_api; order = closed_order; alerts = Alert.fuse_tripped 1 ∷ [] }

init-defaults : Api.init (pos 8000) (pos 300) (pos 6000) (pos 3600) ≡ closed_api
unfolding Api.init Breaker.init
init-defaults = refl

-- 4799 is below the threshold of 80 % of 6000, and 4800 is at it.
check_weight-threshold :
    ((Api.check_weight (pos 4799) 7 7 closed).1 ≡ false)
    × ((Api.check_weight (pos 4800) 7 7 closed).1 ≡ true)
unfolding Api.check_weight Api.is_tripped Breaker.is_tripped Breaker.is_over
check_weight-threshold = (refl, refl)

abbrev calls : List Call
calls =
    Call.check_weight (pos 5000) 5000 5000
    ∷ Call.on_error_code (negsuc 1002) 6000 6000
    ∷ Call.is_tripped 305000 305000
    ∷ Call.on_error_code (negsuc 1014) 306000 306000
    ∷ []

calls_run :
    ((apply_all calls closed).api.current_cooldown ≡ 3600)
    × ((apply_all calls closed).order.current_cooldown ≡ 120)
    × ((apply_all calls closed).alerts
        ≡ Alert.fuse_tripped 2 ∷ Alert.fuse_reset 1 ∷ Alert.fuse_tripped 1 ∷ [])
unfolding apply_all Calls.apply Api.check_weight Api.on_error_code Api.is_tripped Api.trip
    Order.on_error_code Breaker.trip Breaker.is_tripped Breaker.is_over Breaker.next_streak
    Breaker.in_grace_window Breaker.backoff
calls_run = (refl, refl, refl)

closed_api-IsValid : IsValid closed_api
closed_api-IsValid = ground arith

tripped_api-IsValid : IsValid tripped_api
tripped_api-IsValid = ground arith

fuses_stay_valid_example : AreValid (
    apply_all calls (record {
      api = Api.init (pos 8000) (pos 300) (pos 6000) (pos 3600);
      order = Order.init (pos 7000) (pos 15) (pos 100) (pos 120);
      alerts = [];
    }))
fuses_stay_valid_example =
    fuses_stay_valid (pos 8000) (pos 300) (pos 6000) (pos 3600) (pos 7000) (pos 15) (pos 100)
      (pos 120) calls

-- A reset at once, and one that is noticed ten minutes late.
abbrev further : List Retrip
further =
    record { late = 0; lag = 1; after = 1000 }
    ∷ record { late = 600000; lag = 0; after = 119999 }
    ∷ []

trips_back_off_example :
    (retrips 120
      (Reason.over_threshold 5000)
      further
      (Breaker.trip 120 7 (Reason.over_threshold 5000) false closed_api)).current_cooldown
    ≡ min (300 * 2 ^ 2) 3600
trips_back_off_example =
    trips_back_off 120 7 (Reason.over_threshold 5000) further closed_api closed_api-IsValid refl
      refl (omega arith)
