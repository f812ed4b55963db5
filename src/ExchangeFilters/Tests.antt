-- ===== src/ExchangeFilters/Tests.antt =====
-- The filters of runtime/core/exchange_filters.py for a symbol with steps of 0.001 and 0.05.
use pecunator_accu_monetas.Prelude.{◌≡◌, refl}
use pecunator_accu_monetas.Prelude.Frac.{Frac, of_ℕ}
use pecunator_accu_monetas.ExchangeFilters.{
  SymbolFilters, FilterEntry, quantize_qty, quantize_price, floor_to, round_even,
}

abbrev step : Frac
step = record { num = 1; den = 1000 }

abbrev tick : Frac
tick = record { num = 5; den = 100 }

abbrev lot : FilterEntry
lot = FilterEntry.lot_size step 3 step (of_ℕ 9000)

abbrev filters : SymbolFilters
filters = record {
  qty_step = step;
  qty_decimals = 3;
  min_qty = step;
  max_qty = of_ℕ 9000;
  price_tick = tick;
  price_decimals = 2;
  min_price = tick;
  max_price = of_ℕ 1000;
  min_notional = of_ℕ 5;
}

abbrev qty : Frac
qty = record { num = 12345678; den = 10000000 }

-- 1.2345678 is rounded down to 1.234 and to 1.20.
quantize_runs :
    (quantize_qty filters qty ≡ record { num = 1234; den = 1000 })
    × (quantize_price filters qty ≡ record { num = 120; den = 100 })
unfolding quantize_qty quantize_price floor_to
quantize_runs = (refl, refl)

-- Half a cent goes to the even one.
round_even_runs : round_even (record { num = 1235; den = 1000 }) 2 ≡ record { num = 124; den = 100 }
unfolding round_even
round_even_runs = refl
