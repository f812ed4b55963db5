-- ===== src/WeightGovernor/Tests.antt =====
-- The throttle of runtime/core/weight_governor.py at the default limit of 6000.
use pecunator_accu_monetas.Prelude.{◌+◌, ◌*◌, ◌≡◌, refl, []}
use pecunator_accu_monetas.Prelude.Int.{pos}
use pecunator_accu_monetas.WeightGovernor.{
  Governor, Permission, request_permission, zone, zone_of, pct, pressure, throttle, permission_in,
}

abbrev idle : Governor
idle = record { weight_limit = pos 6000; current_weight = 0; last_update = 0; bots = [] }

abbrev busy : Governor
busy = record idle { current_weight = 4500 }

-- At three quarters of the limit the wait is 2 + 25 / 30 * 28 seconds.
busy_waits :
    request_permission busy
    ≡ Permission.wait (record { num = 2 * (6000 * 3000) + 15000000 * 28; den = 6000 * 3000 })
unfolding request_permission zone zone_of pct pressure throttle permission_in
busy_waits = refl
