-- ===== src/ExchangeFilters/Orders.antt =====
-- The validation of runtime/core/exchange_filters.py.
use pecunator_accu_monetas.Prelude.{◌≡◌, ◌↔◌, arith}
use pecunator_accu_monetas.Prelude.Frac.{Frac, ◌≤f◌, mul}
use pecunator_accu_monetas.ExchangeFilters.{SymbolFilters, Verdict, validate_order}

-- An order is valid exactly if its quantity and its price are within their bounds and its notional
-- is at least the minimum; it is refused for its notional only if the other four bounds hold.
pub validate_order_exact :
    (f : SymbolFilters) (qty price : Frac)
    → ((validate_order f qty price ≡ Verdict.valid) ↔ (
        (f.min_qty ≤f qty)
        × (qty ≤f f.max_qty)
        × (f.min_price ≤f price)
        × (price ≤f f.max_price)
        × (f.min_notional ≤f mul qty price)))
      × (validate_order f qty price ≡ Verdict.notional_low
          → (f.min_qty ≤f qty)
            × (qty ≤f f.max_qty)
            × (f.min_price ≤f price)
            × (price ≤f f.max_price))
unfolding validate_order
validate_order_exact f qty price = ground arith
