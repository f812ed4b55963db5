-- ===== src/ExchangeFilters/Rounding.antt =====
-- The rounding of runtime/core/exchange_filters.py.
use pecunator_accu_monetas.Prelude.{◌≡◌, true}
use pecunator_accu_monetas.Prelude.Frac.{Frac, ◌≤f◌, add, ltb_frac}
use pecunator_accu_monetas.ExchangeFilters.{floor_to}

-- What the rounding promises of its result: it is not above the value, less than a step below it,
-- and stays as it is when it is rounded again.
abbrev pub IsFloor : Frac → Frac → Frac → Type 0
IsFloor step x r = (r ≤f x) × (ltb_frac x (add r step) ≡ true) × (floor_to step r ≡ r)
