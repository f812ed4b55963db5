-- ===== src/Fuse/Order.antt =====
-- `OrderFuse` of runtime/core/order_fuse.py: the breaker with a least cooldown of 5 s and a grace
-- window of 30 s, which counts orders and trips on the code -1015.
use pecunator_accu_monetas.Prelude.{ℕ, Bool, true, false, ◌==◌, if◌then◌else◌}
use pecunator_accu_monetas.Prelude.Int.{ℤ, pos, negsuc, pos_part, leb_ℤ}
use pecunator_accu_monetas.Fuse.Breaker
use pecunator_accu_monetas.Fuse.Breaker.{Breaker, Reason}

abbrev pub grace_window_sec : ℕ
grace_window_sec = 30

-- `__init__`: the threshold, the cooldown, the limit over 10 s and the longest cooldown.
unfoldable pub init : ℤ → ℤ → ℤ → ℤ → Breaker
init = Breaker.init 5

-- `_trip`
abbrev pub trip : ℕ → Reason → Bool → Breaker → Breaker
trip = Breaker.trip grace_window_sec

-- `is_tripped`
abbrev pub is_tripped : ℕ → ℕ → Breaker → Breaker × Bool
is_tripped = Breaker.is_tripped

-- `remaining_cooldown_sec`, in milliseconds.
abbrev pub remaining_cooldown : ℕ → Breaker → ℕ
remaining_cooldown = Breaker.remaining_cooldown

-- `manual_reset`
abbrev pub manual_reset : ℕ → Breaker → Breaker
manual_reset = Breaker.manual_reset

-- `check_order_count`
unfoldable pub check_order_count : ℤ → ℕ → ℕ → Breaker → Breaker × Bool
check_order_count order_count_10s now now' b =
    let used = pos_part order_count_10s in
    if leb_ℤ order_count_10s (pos 0)
    then is_tripped now now' b
    else (if Breaker.is_over used b
        then (trip now (Reason.over_threshold used) false b, true)
        else is_tripped now now' b)

-- `_ORDER_RATE_CODES` is the set of -1015 alone.
abbrev pub is_order_rate_code : ℤ → Bool
is_order_rate_code (pos n) = false
is_order_rate_code (negsuc n) = n == 1014

-- `on_error_code`
unfoldable pub on_error_code : ℤ → ℕ → Breaker → Breaker × Bool
on_error_code code now b =
    if is_order_rate_code code then (trip now (Reason.error_code code) true b, true) else (b, false)
