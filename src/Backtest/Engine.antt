-- ===== src/Backtest/Engine.antt =====
-- `BacktestEngine` of runtime/backtest/engine.py. Prices and amounts of the asset are whole numbers of
-- their units; cash, costs and fees are whole numbers of a hundred-millionth of a price unit
-- times an asset unit, which the fees and the slippage in hundredths of a percent keep whole. Averages
-- are exact fractions. The slippage and the fee are at most 10000.
use Prim.Native.String.{String}
use pecunator_accu_monetas.Prelude.{
  ℕ, ◌+◌, ◌-◌, ◌*◌, min, Option, none, some, List, [], ◌∷◌, ◌++◌, ltb, if◌then◌else◌,
}
use pecunator_accu_monetas.Prelude.Frac.{Frac, Signed, of_ℕ, add, ltb_frac}

pub record Candle : Type 0 where
  pub timestamp_ms : ℕ
  pub opening : ℕ
  pub high : ℕ
  pub low : ℕ
  pub closing : ℕ
  pub volume : ℕ

pub data Side : Type 0 where
  buy sell other : Side

-- An order of a strategy; an amount that is not positive is 0.
pub record Order : Type 0 where
  pub side : Side
  pub qty : ℕ
  pub reason : String

-- A price is a number of ten-thousandths of its unit.
pub record Trade : Type 0 where
  pub candle_idx : ℕ
  pub timestamp_ms : ℕ
  pub side : Side
  pub price : ℕ
  pub qty : ℕ
  pub fee : ℕ
  pub reason : String
  pub pnl : Option Signed

pub record Portfolio : Type 0 where
  pub cash : ℕ
  pub position_qty : ℕ
  pub avg_buy_price : Frac
  pub total_cost : Frac
  pub buy_count : ℕ

pub record Result : Type 0 where
  pub candles_processed : ℕ
  pub trades : List Trade
  pub equity_curve : List ℕ
  pub peak_equity : ℕ
  pub max_drawdown : Frac

pub record Engine : Type 0 where
  pub fee_bps : ℕ
  pub slippage_bps : ℕ

pub record Account : Type 0 where
  pub portfolio : Portfolio
  pub result : Result

-- The account of `run` before its first candle.
unfoldable pub opened : ℕ → Account
opened capital = record {
  portfolio = record {
    cash = capital;
    position_qty = 0;
    avg_buy_price = of_ℕ 0;
    total_cost = of_ℕ 0;
    buy_count = 0;
  };
  result = record {
    candles_processed = 0;
    trades = [];
    equity_curve = [];
    peak_equity = 0;
    max_drawdown = of_ℕ 0;
  };
}

-- `a / b`, of an amount.
abbrev pub over : Frac → ℕ → Frac
over a n = record { num = a.num; den = a.den * n }

abbrev pub times : Frac → ℕ → Frac
times a n = record { num = a.num * n; den = a.den }

-- The trades with one more.
abbrev pub with_trade : Trade → Result → Result
with_trade t r = record r { trades = r.trades ++ t ∷ [] }

abbrev pub fill_price : Engine → Candle → ℕ
fill_price e c = c.closing * (10000 + e.slippage_bps)

abbrev pub cost_of : Engine → Candle → ℕ → ℕ
cost_of e c qty = fill_price e c * qty * 10000

abbrev pub fee_of : Engine → Candle → ℕ → ℕ
fee_of e c qty = fill_price e c * qty * e.fee_bps

-- What a buy leaves.
unfoldable pub after_buy : Engine → Candle → ℕ → ℕ → String → Account → Account
after_buy e c idx qty reason a =
    let p = a.portfolio in
    let spent = add p.total_cost (of_ℕ (cost_of e c qty)) in
    let held = p.position_qty + qty in
    let portfolio : Portfolio = record {
      cash = p.cash - (cost_of e c qty + fee_of e c qty);
      position_qty = held;
      avg_buy_price = if ltb 0 held then over spent held else p.avg_buy_price;
      total_cost = spent;
      buy_count = p.buy_count + 1;
    } in
    let trade : Trade = record {
      candle_idx = idx;
      timestamp_ms = c.timestamp_ms;
      side = Side.buy;
      price = fill_price e c;
      qty = qty;
      fee = fee_of e c qty;
      reason = reason;
      pnl = none;
    } in
    record { portfolio = portfolio; result = with_trade trade a.result }

-- `_execute_buy`
unfoldable pub execute_buy : Engine → Candle → ℕ → ℕ → String → Account → Account
execute_buy e c idx qty reason a =
    if ltb a.portfolio.cash (cost_of e c qty + fee_of e c qty)
    then a
    else after_buy e c idx qty reason a

-- The profit of a sale: what it brings, less the cost of what is sold.
abbrev pub profit : ℕ → Frac → Signed
profit revenue basis = record { plus = revenue * basis.den; minus = basis.num; over = basis.den }

abbrev pub sell_price : Engine → Candle → ℕ
sell_price e c = c.closing * (10000 - e.slippage_bps)

abbrev pub sell_fee : Engine → Candle → ℕ → ℕ
sell_fee e c qty = sell_price e c * qty * e.fee_bps

abbrev pub net_revenue : Engine → Candle → ℕ → ℕ
net_revenue e c qty = sell_price e c * qty * 10000 - sell_fee e c qty

-- What a sale of an amount that is held leaves.
unfoldable pub after_sell : Engine → Candle → ℕ → ℕ → String → Account → Account
after_sell e c idx qty reason a =
    let p = a.portfolio in
    let held = p.position_qty - qty in
    let portfolio : Portfolio = record p {
      cash = p.cash + net_revenue e c qty;
      position_qty = held;
      avg_buy_price = if ltb 0 held then p.avg_buy_price else of_ℕ 0;
      total_cost = if ltb 0 held then times p.avg_buy_price held else of_ℕ 0;
    } in
    let trade : Trade = record {
      candle_idx = idx;
      timestamp_ms = c.timestamp_ms;
      side = Side.sell;
      price = sell_price e c;
      qty = qty;
      fee = sell_fee e c qty;
      reason = reason;
      pnl = some (profit (net_revenue e c qty) (times p.avg_buy_price qty));
    } in
    record { portfolio = portfolio; result = with_trade trade a.result }

-- `_execute_sell`
unfoldable pub execute_sell : Engine → Candle → ℕ → ℕ → String → Account → Account
execute_sell e c idx qty reason a =
    let sell_qty = min qty a.portfolio.position_qty in
    if ltb 0 sell_qty then after_sell e c idx sell_qty reason a else a

-- An order of a strategy.
unfoldable pub execute : Engine → Candle → ℕ → Order → Account → Account
execute e c idx o a =
    if ltb 0 o.qty
    then elim o.side [
      | Side.buy ↦ execute_buy e c idx o.qty o.reason a
      | Side.sell ↦ execute_sell e c idx o.qty o.reason a
      | Side.other ↦ a
    ]
    else a

unfoldable pub execute_all : Engine → Candle → ℕ → List Order → Account → Account
execute_all e c idx [] a = a
execute_all e c idx (o ∷ os) a = execute_all e c idx os (execute e c idx o a)

-- The equity at the close, its peak and the largest drawdown.
unfoldable pub mark : Candle → Account → Account
mark c a =
    let r = a.result in
    let equity = a.portfolio.cash + a.portfolio.position_qty * c.closing * 100000000 in
    let peak = if ltb r.peak_equity equity then equity else r.peak_equity in
    let dd : Frac = record { num = peak - equity; den = peak } in
    record a {
      result = record r {
        candles_processed = r.candles_processed + 1;
        equity_curve = r.equity_curve ++ equity ∷ [];
        peak_equity = peak;
        max_drawdown =
            if ltb 0 peak
            then (if ltb_frac r.max_drawdown dd then dd else r.max_drawdown)
            else r.max_drawdown;
      };
    }

module _ {S : Type 0} (on_candle : S → ℕ → Candle → Portfolio → S × List Order) (e : Engine) where
  -- The candles from one index on, with the state of the strategy.
  unfoldable pub run_from : ℕ → List Candle → S → Account → Account
  run_from idx [] s a = a
  run_from idx (c ∷ cs) s a =
      let (s', orders) = on_candle s idx c a.portfolio in
      run_from (idx + 1) cs s' (mark c (execute_all e c idx orders a))

  -- `run`
  unfoldable pub run : S → ℕ → List Candle → Account
  run s capital cs = run_from 0 cs s (opened capital)
