-- ===== src/Fuse/Api.antt =====
-- `ApiFuse` of runtime/core/api_fuse.py: the breaker with a least cooldown of 30 s and a grace
-- window of 120 s, which reports to the alert dispatcher and hands the code -1015 on to the order
-- fuse. The state holds both fuses and the alerts sent, the newest first. The log lines and the
-- text of the messages are not modelled; a dispatcher that raises is caught by the source.
use pecunator_accu_monetas.Prelude.{ℕ, Bool, true, false, ◌||◌, List, ◌∷◌, ◌==◌, if◌then◌else◌}
use pecunator_accu_monetas.Prelude.Int.{ℤ, pos, negsuc, pos_part, leb_ℤ}
use pecunator_accu_monetas.Fuse.Breaker
use pecunator_accu_monetas.Fuse.Breaker.{Breaker, Reason}
use pecunator_accu_monetas.Fuse.Order

abbrev pub grace_window_sec : ℕ
grace_window_sec = 120

-- The alerts "FUSE_TRIPPED" with the trip's number and "FUSE_RESET".
pub data Alert : Type 0 where
  fuse_tripped : ℕ → Alert
  fuse_reset : ℕ → Alert

pub record Fuses : Type 0 where
  pub api : Breaker
  pub order : Breaker
  pub alerts : List Alert

-- `__init__`: the threshold, the cooldown, the weight limit and the longest cooldown.
unfoldable pub init : ℤ → ℤ → ℤ → ℤ → Breaker
init = Breaker.init 30

-- `_trip`, with the alert that follows a trip.
unfoldable pub trip : ℕ → Reason → Bool → Fuses → Fuses
trip now reason force_max s =
    let b = Breaker.trip grace_window_sec now reason force_max s.api in
    if s.api.tripped
    then s
    else record s { api = b; alerts = Alert.fuse_tripped b.trip_count ∷ s.alerts }

-- `is_tripped`, with the alert that follows an automatic reset.
unfoldable pub is_tripped : ℕ → ℕ → Fuses → Fuses × Bool
is_tripped now now' s =
    let (b, blocked) = Breaker.is_tripped now now' s.api in
    let alerts =
      if s.api.tripped
      then (if blocked then s.alerts else Alert.fuse_reset b.trip_count ∷ s.alerts)
      else s.alerts in
    (record s { api = b; alerts = alerts }, blocked)

-- `check_weight`
unfoldable pub check_weight : ℤ → ℕ → ℕ → Fuses → Fuses × Bool
check_weight used_weight now now' s =
    let used = pos_part used_weight in
    if leb_ℤ used_weight (pos 0)
    then is_tripped now now' s
    else (if Breaker.is_over used s.api
        then (trip now (Reason.over_threshold used) false s, true)
        else is_tripped now now' s)

-- `_FATAL_CODES`: -1003, 429, 418 and -1015.
abbrev pub is_fatal_code : ℤ → Bool
is_fatal_code (pos n) = n == 429 || n == 418
is_fatal_code (negsuc n) = n == 1002 || n == 1014

-- `on_error_code`; `now'` is the reading that the order fuse takes.
unfoldable pub on_error_code : ℤ → ℕ → ℕ → Fuses → Fuses × Bool
on_error_code code now now' s =
    let s' = trip now (Reason.error_code code) true s in
    let (order, _) = Order.on_error_code code now' s'.order in
    if is_fatal_code code
    then ((if Order.is_order_rate_code code then record s' { order = order } else s'), true)
    else (s, false)

-- `manual_reset`
unfoldable pub manual_reset : ℕ → Fuses → Fuses
manual_reset now s = record s { api = Breaker.manual_reset now s.api }
