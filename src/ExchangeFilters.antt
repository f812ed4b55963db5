-- ===== src/ExchangeFilters.antt =====
-- The filters of a symbol of runtime/core/exchange_filters.py: their defaults and parsing, the
-- rounding of quantities and prices, the validation of an order, and the cache.
-- Decimals are exact fractions that are not negative. The log lines and the reasons' texts are not
-- modelled; what the client answers is an argument.
pub mod Rounding
pub mod Orders
pub mod Cache
mod Tests
use Prim.Native.String.{String}
use pecunator_accu_monetas.Prelude.{
  ℕ, suc, ◌+◌, ◌*◌, ◌/◌, ◌%◌, ◌^◌, Bool, true, false, ◌&&◌, ◌||◌, Option, none, some, List, [], ◌∷◌,
  ltb, ◌==◌, if◌then◌else◌,
}
use pecunator_accu_monetas.Prelude.Frac.{Frac, of_ℕ, mul, is_pos, ltb_frac}
use pecunator_accu_monetas.Prelude.Dict.{Dict, lookup, insert, erase}

pub record SymbolFilters : Type 0 where
  pub qty_step : Frac
  pub qty_decimals : ℕ
  pub min_qty : Frac
  pub max_qty : Frac
  pub price_tick : Frac
  pub price_decimals : ℕ
  pub min_price : Frac
  pub max_price : Frac
  pub min_notional : Frac

-- An entry of `filters`, by its type: the step or tick with its decimals, the least and the greatest
-- value; or the least notional.
pub data FilterEntry : Type 0 where
  lot_size : Frac → ℕ → Frac → Frac → FilterEntry
  price_filter : Frac → ℕ → Frac → Frac → FilterEntry
  notional : Frac → FilterEntry
  other_filter : FilterEntry

abbrev pub satoshi : Frac
satoshi = record { num = 1; den = 100000000 }

-- The defaults of `__init__`.
unfoldable pub default_filters : SymbolFilters
default_filters = record {
  qty_step = satoshi;
  qty_decimals = 8;
  min_qty = satoshi;
  max_qty = of_ℕ 99999999;
  price_tick = record { num = 1; den = 100 };
  price_decimals = 2;
  min_price = satoshi;
  max_price = of_ℕ 99999999;
  min_notional = of_ℕ 5;
}

-- The body of the loop over the entries.
unfoldable pub apply_entry : FilterEntry → SymbolFilters → SymbolFilters
apply_entry (FilterEntry.lot_size step decimals low high) f = record f {
  qty_step = step;
  qty_decimals = decimals;
  min_qty = low;
  max_qty = high;
}
apply_entry (FilterEntry.price_filter tick decimals low high) f = record f {
  price_tick = tick;
  price_decimals = decimals;
  min_price = low;
  max_price = high;
}
apply_entry (FilterEntry.notional n) f = record f { min_notional = n }
apply_entry FilterEntry.other_filter f = f

unfoldable pub apply_entries : List FilterEntry → SymbolFilters → SymbolFilters
apply_entries [] f = f
apply_entries (e ∷ es) f = apply_entries es (apply_entry e f)

-- `round(x, places)`, to the nearest and to the even one in the middle.
unfoldable pub round_even : Frac → ℕ → Frac
round_even x places =
    let n = x.num * 10 ^ places in
    let q = n / x.den in
    let r = n % x.den in
    let up = ltb x.den (2 * r) || (2 * r == x.den && q % 2 == 1) in
    record { num = if up then q + 1 else q; den = 10 ^ places }

-- `(x // step) * step`
unfoldable pub floor_to : Frac → Frac → Frac
floor_to step x = mul (of_ℕ (x.num * step.den / (x.den * step.num))) step

-- `quantize_qty`
unfoldable pub quantize_qty : SymbolFilters → Frac → Frac
quantize_qty f qty =
    if is_pos f.qty_step then floor_to f.qty_step qty else round_even qty f.qty_decimals

-- `quantize_price`
unfoldable pub quantize_price : SymbolFilters → Frac → Frac
quantize_price f price =
    if is_pos f.price_tick then floor_to f.price_tick price else round_even price f.price_decimals

pub data Verdict : Type 0 where
  valid qty_low qty_high price_low price_high notional_low : Verdict

-- `validate_order`
unfoldable pub validate_order : SymbolFilters → Frac → Frac → Verdict
validate_order f qty price =
    if ltb_frac qty f.min_qty
    then Verdict.qty_low
    else if ltb_frac f.max_qty qty
    then Verdict.qty_high
    else if ltb_frac price f.min_price
    then Verdict.price_low
    else if ltb_frac f.max_price price
    then Verdict.price_high
    else if ltb_frac (mul qty price) f.min_notional
    then Verdict.notional_low
    else Verdict.valid

-- `SymbolFilters(key, info)`; `none` is a client that fails or has no info, whose info is empty.
unfoldable pub filters_from : Option (List FilterEntry) → SymbolFilters
filters_from none = default_filters
filters_from (some es) = apply_entries es default_filters

-- The cached filters, or the new ones, which are cached.
unfoldable pub cached_or :
    Option SymbolFilters
    → String
    → SymbolFilters
    → Dict SymbolFilters
    → Dict SymbolFilters × SymbolFilters
cached_or (some f) key new cache = (cache, f)
cached_or none key new cache = (insert key new cache, new)

-- `ensure_loaded`, over keys in capitals.
unfoldable pub ensure_loaded :
    String → Option (List FilterEntry) → Dict SymbolFilters → Dict SymbolFilters × SymbolFilters
ensure_loaded key info cache = cached_or (lookup key cache) key (filters_from info) cache

-- `invalidate`
unfoldable pub invalidate : String → Dict SymbolFilters → Dict SymbolFilters
invalidate key cache = erase key cache
