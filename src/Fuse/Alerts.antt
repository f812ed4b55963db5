-- ===== src/Fuse/Alerts.antt =====
-- The alerts of runtime/core/api_fuse.py tell the history of its trips.
use pecunator_accu_monetas.Prelude.{
  ℕ, ◌+◌, ◌≤◌, ◌≡◌, Bool, true, false, List, [], ◌∷◌, arith, if◌then◌else◌,
}
use pecunator_accu_monetas.Prelude.Int.{ℤ, pos_part}
use pecunator_accu_monetas.Fuse.Breaker
use pecunator_accu_monetas.Fuse.Breaker.{Breaker, Reason}
use pecunator_accu_monetas.Fuse.Api
use pecunator_accu_monetas.Fuse.Api.{Fuses, Alert}
use pecunator_accu_monetas.Fuse.Calls.{Call, apply, apply_all}

-- How many alerts report a trip, and how many a reset.
abbrev pub trips : List Alert → ℕ
trips [] = 0
trips (Alert.fuse_tripped n ∷ l) = trips l + 1
trips (Alert.fuse_reset n ∷ l) = trips l

abbrev pub resets : List Alert → ℕ
resets [] = 0
resets (Alert.fuse_tripped n ∷ l) = resets l
resets (Alert.fuse_reset n ∷ l) = resets l + 1

-- Every trip was reported, and every reset but of the trip that may still be on.
pub record IsReported (s : Fuses) : Type 0 where
  pub all_trips : trips s.alerts ≡ s.api.trip_count
  pub fewer_resets : resets s.alerts + (if s.api.tripped then 1 else 0) ≤ trips s.alerts

trip-IsReported :
    (now : ℕ) (r : Reason) (force : Bool) (s : Fuses)
    → IsReported s
    → IsReported (Api.trip now r force s)
unfolding Api.trip Breaker.trip
trip-IsReported now r force s h = ground arith

is_tripped-IsReported :
    (now now' : ℕ) (s : Fuses) → IsReported s → IsReported (Api.is_tripped now now' s).0
unfolding Api.is_tripped Breaker.is_tripped
is_tripped-IsReported now now' s h = ground arith

apply-IsReported : (c : Call) (s : Fuses) → IsReported s → IsReported (apply c s)
unfolding apply Api.check_weight Api.on_error_code Api.manual_reset Breaker.manual_reset
apply-IsReported (Call.check_weight used now now') s h = ground (
  arith,
  trip-IsReported now (Reason.over_threshold (pos_part used)) false s h,
  is_tripped-IsReported now now' s h,
)
apply-IsReported (Call.on_error_code code now now') s h =
    let reported = trip-IsReported now (Reason.error_code code) true s h in ground arith
apply-IsReported (Call.is_tripped now now') s h = is_tripped-IsReported now now' s h
apply-IsReported (Call.manual_reset now) s h = ground arith

apply_all-IsReported : (cs : List Call) (s : Fuses) → IsReported s → IsReported (apply_all cs s)
unfolding apply_all
apply_all-IsReported [] s h = h
apply_all-IsReported (c ∷ cs) s h = apply_all-IsReported cs (apply c s) (apply-IsReported c s h)

-- Whatever is called on new fuses, the number of "FUSE_TRIPPED" alerts is the trip count, and there
-- are at most as many "FUSE_RESET" alerts as trips that are over.
pub alerts_count_trips :
    (t c l m : ℤ) (order : Breaker) (calls : List Call)
    → IsReported (apply_all calls (record { api = Api.init t c l m; order = order; alerts = [] }))
unfolding Api.init Breaker.init
alerts_count_trips t c l m order calls = apply_all-IsReported calls _ (ground arith)
