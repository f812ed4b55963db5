-- ===== src/Orphans/Recovery.antt =====
-- `needs_scan`, `recover_dorothy_orphan` and `scan_all` of runtime/core/orphan_guard.py.
use pecunator_accu_monetas.Prelude.{
  ℕ, ◌+◌, ◌^◌, Bool, true, false, not, ◌&&◌, ◌||◌, Option, none, some, List, [], ◌∷◌, ◌++◌, leb,
  ◌==◌, if◌then◌else◌, get_or,
}
use pecunator_accu_monetas.Prelude.Frac.{Frac, of_ℕ, add, mul, div, is_pos, leb_frac}
use pecunator_accu_monetas.Prelude.Codes.{find, put, drop}
use pecunator_accu_monetas.ExchangeFilters.{
  SymbolFilters, Verdict, floor_to, quantize_qty, quantize_price, validate_order,
}
use pecunator_accu_monetas.Orphans.Scan.{
  OpenOrder, Balance, Pair, Orphan, scan_dorothy_orphans, scan_elphaba_orphans,
}

-- The configuration of the bot that the guard reads.
pub record Config : Type 0 where
  pub quote_order_qty : Frac
  pub profit_factor : Frac
  pub price_decimals : ℕ
  pub qty_decimals : ℕ

pub record Trade : Type 0 where
  pub is_buyer : Bool
  pub price : Frac

-- Where a check of the filters raises: in the first quantizing of the price or the quantity, in the
-- first validation, as the quantity is adjusted, or in the second validation.
pub data Stage : Type 0 where
  at_price at_qty at_validate at_adjust at_second : Stage

-- The filters of the symbol: looking them up raises, there are none, or there are filters, and where
-- their check raises if it gets there.
pub data Filters : Type 0 where
  lookup_raises no_filters : Filters
  found : SymbolFilters → Option Stage → Filters

-- What the client and the filters answer to one recovery; `none` is a call that raises.
pub record Answers : Type 0 where
  pub my_trades : Option (List Trade)
  pub ticker : Option Frac
  pub filters : Filters
  pub accepts : Bool

-- A limit order to sell: its quantity and its price.
pub record SellOrder : Type 0 where
  pub qty : Frac
  pub price : Frac

pub data Action : Type 0 where
  exhausted : ℕ → Action
  price_unknown filter_rejected zero_qty : Action
  recovered : SellOrder → Action
  failed : ℕ → Action

-- `_last_scan_mono` in milliseconds; the retry counts by symbol, whose key ends in ":SELL_LIMIT";
-- and the orders sent, which the exchange keeps.
pub record Guard : Type 0 where
  pub last_scan : ℕ
  pub retry_counts : List (List ℕ × ℕ)
  pub orphans : List Orphan
  pub sent : List SellOrder

-- `__init__`
unfoldable pub init : Guard
init = record { last_scan = 0; retry_counts = []; orphans = []; sent = [] }

abbrev pub scan_interval : ℕ
scan_interval = 600000

abbrev pub max_retry_attempts : ℕ
max_retry_attempts = 3

-- `needs_scan`
unfoldable pub needs_scan : ℕ → Guard → Bool
needs_scan now g = g.last_scan == 0 || leb (g.last_scan + scan_interval) now

-- `_retry_counts.get(key, 0)`, `[key] = n` and `pop(key, None)`.
unfoldable pub count_of : List ℕ → List (List ℕ × ℕ) → ℕ
count_of k d = get_or (find k d) 0

unfoldable pub put_count : List ℕ → ℕ → List (List ℕ × ℕ) → List (List ℕ × ℕ)
put_count k n d = put k n d

unfoldable pub drop_count : List ℕ → List (List ℕ × ℕ) → List (List ℕ × ℕ)
drop_count k d = drop k d

-- The price of the last buy of the trades, if there is one.
unfoldable pub last_buy : List Trade → Option Frac
last_buy [] = none
last_buy (t ∷ ts) = elim (last_buy ts) [
  | some p ↦ some p
  | none ↦ if t.is_buyer then some t.price else none
]

-- The estimated price; `none` is a call that raises.
unfoldable pub estimate : Answers → Option Frac
estimate a = elim a.my_trades [
  | none ↦ none
  | some ts ↦ elim (last_buy ts) [ some p ↦ some p | none ↦ a.ticker ]
]

-- `_q`, of runtime/bot/_decimal_utils.py: the value cut to a number of decimal places.
unfoldable pub quantize : Frac → ℕ → Frac
quantize x places = floor_to (record { num = 1; den = 10 ^ places }) x

abbrev pub max_frac : Frac → Frac → Frac
max_frac a b = if leb_frac a b then b else a

abbrev pub is_valid : Verdict → Bool
is_valid Verdict.valid = true
is_valid _ = false

abbrev pub is_notional_low : Verdict → Bool
is_notional_low Verdict.notional_low = true
is_notional_low _ = false

-- `"minNotional" in _reason and sell_price > 0`
abbrev pub is_adjusted : Verdict → SellOrder → Bool
is_adjusted verdict o = is_notional_low verdict && is_pos o.price

-- The quantity of the second attempt: 5 % above the least notional, if that was what failed.
unfoldable pub adjusted_qty : SymbolFilters → Verdict → SellOrder → Frac
adjusted_qty f verdict o =
    if is_adjusted verdict o
    then max_frac
        (quantize_qty f (mul (div f.min_notional o.price) (record { num = 105; den = 100 })))
        f.min_qty
    else o.qty

-- The validation by the filters; `none` is FILTER_REJECTED.
unfoldable pub fit : SymbolFilters → SellOrder → Option SellOrder
fit f o =
    let p = quantize_price f o.price in
    let q = quantize_qty f o.qty in
    let first : SellOrder = record { qty = q; price = p } in
    let verdict = validate_order f q p in
    let q' = adjusted_qty f verdict first in
    if is_valid verdict
    then some first
    else if is_valid (validate_order f q' p)
    then some (record { qty = q'; price = p })
    else none

-- The validation if it raises at a stage that it gets to. The exception is caught and logged, and the
-- order goes on with the price and the quantity that it has by then.
unfoldable pub fit_until : Stage → SymbolFilters → SellOrder → Option SellOrder
fit_until Stage.at_price f o = some o
fit_until Stage.at_qty f o = some (record o { price = quantize_price f o.price })
fit_until Stage.at_validate f o =
    some (record { qty = quantize_qty f o.qty; price = quantize_price f o.price })
fit_until Stage.at_adjust f o =
    let p = quantize_price f o.price in
    let q = quantize_qty f o.qty in
    let first : SellOrder = record { qty = q; price = p } in
    if is_adjusted (validate_order f q p) first then some first else fit f o
fit_until Stage.at_second f o =
    let p = quantize_price f o.price in
    let q = quantize_qty f o.qty in
    let first : SellOrder = record { qty = q; price = p } in
    let verdict = validate_order f q p in
    if is_valid verdict
    then some first
    else some (record { qty = adjusted_qty f verdict first; price = p })

-- What the filters leave of an order; `none` is FILTER_REJECTED.
unfoldable pub fit_any : Filters → SellOrder → Option SellOrder
fit_any Filters.lookup_raises o = some o
fit_any Filters.no_filters o = some o
fit_any (Filters.found f none) o = fit f o
fit_any (Filters.found f (some stage)) o = fit_until stage f o

-- A failed attempt is counted.
abbrev pub count_attempt : List ℕ → ℕ → Guard → Guard
count_attempt symbol attempts g = record g {
  retry_counts = put_count symbol (attempts + 1) g.retry_counts;
}

-- The order is sent; a client that raises is a failed attempt.
unfoldable pub send : List ℕ → ℕ → Bool → SellOrder → Guard → Guard × Action
send symbol attempts accepts o g =
    let g' : Guard = record g { sent = o ∷ g.sent } in
    if accepts
    then (record g' { retry_counts = drop_count symbol g.retry_counts }, Action.recovered o)
    else (count_attempt symbol attempts g', Action.failed (attempts + 1))

-- What is wanted: all that is free, at a price above the estimate by the profit factor.
unfoldable pub wanted : Frac → Config → Frac → SellOrder
wanted asset_free config est_price = record {
  qty = quantize asset_free config.qty_decimals;
  price = quantize (mul est_price (add (of_ℕ 1) config.profit_factor)) config.price_decimals;
}

-- From the estimated price on.
unfoldable pub place : List ℕ → Frac → Config → Answers → ℕ → Frac → Guard → Guard × Action
place symbol asset_free config a attempts est_price g =
    if not (is_pos est_price)
    then (count_attempt symbol attempts g, Action.price_unknown)
    else elim (fit_any a.filters (wanted asset_free config est_price)) [
      | none ↦ (count_attempt symbol attempts g, Action.filter_rejected)
      | some o ↦
          if not (is_pos o.qty)
          then (count_attempt symbol attempts g, Action.zero_qty)
          else send symbol attempts a.accepts o g
    ]

-- `recover_dorothy_orphan`
unfoldable pub recover_dorothy_orphan : List ℕ → Frac → Config → Answers → Guard → Guard × Action
recover_dorothy_orphan symbol asset_free config a g =
    let attempts = count_of symbol g.retry_counts in
    if leb max_retry_attempts attempts then (g, Action.exhausted attempts) else elim (estimate a) [
      | none ↦ (count_attempt symbol attempts g, Action.failed (attempts + 1))
      | some price ↦ place symbol asset_free config a attempts price g
    ]

-- The recovery of the Dorothy orphans of a scan.
unfoldable pub recover_all : Config → Answers → List Orphan → Guard → Guard × List Action
recover_all config a [] g = (g, [])
recover_all config a (Orphan.dorothy_orphan symbol free ∷ os) g =
    let (g', action) = recover_dorothy_orphan symbol free config a g in
    let (g'', actions) = recover_all config a os g' in (g'', action ∷ actions)
recover_all config a (Orphan.elphaba_orphan symbol borrowed interest ∷ os) g =
    recover_all config a os g

-- What the client answers to the scans.
pub record Account : Type 0 where
  pub open_orders : Option (List OpenOrder)
  pub balances : Option (List Balance)
  pub pairs : Option (List Pair)
  pub margin_orders : Option (List OpenOrder)

-- `scan_all`
unfoldable pub scan_all :
    ℕ → List ℕ → List ℕ → List ℕ → Config → Account → Answers → Guard → Guard × List Action
scan_all now symbol dorothy_tag elphaba_tag config account a g =
    let d_orphans =
      scan_dorothy_orphans symbol dorothy_tag config.quote_order_qty account.open_orders
        account.balances in
    let e_orphans = scan_elphaba_orphans symbol elphaba_tag account.pairs account.margin_orders in
    recover_all config a d_orphans (record g { last_scan = now; orphans = d_orphans ++ e_orphans })
