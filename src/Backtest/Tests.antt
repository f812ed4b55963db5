-- ===== src/Backtest/Tests.antt =====
-- A backtest of runtime/backtest/engine.py with one buy and one sell.
use pecunator_accu_monetas.Prelude.{
  ℕ, ◌+◌, ◌*◌, ◌<◌, ◌≡◌, refl, List, [], ◌∷◌, ◌==◌, if◌then◌else◌, sum_of,
}
use pecunator_accu_monetas.Backtest.Engine.{
  Side, Order, Candle, Portfolio, Engine, Account, opened, after_buy, after_sell, execute_buy,
  execute_sell, execute, execute_all, mark, run_from, run,
}
use pecunator_accu_monetas.Backtest.Summary.{nothing, summary}
use pecunator_accu_monetas.Backtest.Replay.{run_balances}
use pecunator_accu_monetas.Backtest.Books.{IsBalanced, IsAverage, buy_fee, sum_pnl}
use pecunator_accu_monetas.Backtest.Net.{net_pnl_without_buy_fees}

abbrev engine : Engine
engine = record { fee_bps = 10; slippage_bps = 5 }

abbrev candle : ℕ → ℕ → Candle
candle at price = record {
  timestamp_ms = at;
  opening = price;
  high = price;
  low = price;
  closing = price;
  volume = 1;
}

abbrev candles : List Candle
candles = candle 0 100 ∷ candle 60000 110 ∷ []

-- Buys 2 at the first candle and sells them at the next.
abbrev strategy : ℕ → ℕ → Candle → Portfolio → ℕ × List Order
strategy bought idx c p =
    if bought == 0
    then (1, record { side = Side.buy; qty = 2; reason = "first" } ∷ [])
    else (1, record { side = Side.sell; qty = 3; reason = "next" } ∷ [])

-- A thousand of the quote currency.
abbrev capital : ℕ
capital = 100000000000

abbrev account : Account
account = run strategy engine 0 capital candles

closed_account : account.portfolio.position_qty ≡ 0
unfolding run run_from opened mark execute_all execute execute_buy execute_sell after_buy after_sell
closed_account = refl

-- 2 * 110 at 0.9995 less 2 * 100 at 1.0005, with the fees of both.
cash_run : account.portfolio.cash ≡ 101937001000
unfolding run run_from opened mark execute_all execute execute_buy execute_sell after_buy after_sell
cash_run = refl

run_balances_example :
    let p = account.portfolio in
    let pnl = sum_pnl nothing account.result.trades in
    let fees = sum_of buy_fee account.result.trades in
    IsBalanced capital p.cash fees p.total_cost pnl
    × IsAverage p.total_cost p.position_qty p.avg_buy_price
    × (0 < pnl.over)
run_balances_example = run_balances strategy engine 0 capital candles

net_pnl_without_buy_fees_example :
    let net = (summary account.result.trades).net_pnl in
    (account.portfolio.cash + sum_of buy_fee account.result.trades) * net.over + net.minus
    ≡ capital * net.over + net.plus
net_pnl_without_buy_fees_example =
    net_pnl_without_buy_fees strategy engine 0 capital candles closed_account
