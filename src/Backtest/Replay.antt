-- ===== src/Backtest/Replay.antt =====
-- A whole backtest of runtime/backtest/engine.py against the profits of its trades.
use Prim.Native.String.{String}
use pecunator_accu_monetas.Prelude.{
  ℕ, ◌+◌, ◌*◌, ◌<◌, ◌≡◌, subst⁻¹, min, Bool, true, false, Bool-cases, inl, inr, List, [], ◌∷◌, ltb,
  ltb→lt, ltb_false→le, if◌then◌else◌, sum_of, arith,
}
use pecunator_accu_monetas.Backtest.Summary.{nothing}
use pecunator_accu_monetas.Backtest.Sums.{cleared}
use pecunator_accu_monetas.Backtest.Books.{
  buy_fee, sum_pnl, IsBalanced, IsAverage, Holds, after_buy-Holds, after_sell-Holds,
}
use pecunator_accu_monetas.Backtest.Engine.{
  Candle, Side, Order, Portfolio, Engine, Account, opened, after_buy, after_sell, cost_of, fee_of,
  execute_buy, execute_sell, execute, execute_all, mark, run_from, run,
}

execute_buy-Holds :
    (capital : ℕ) (e : Engine) (c : Candle) (idx qty : ℕ) (reason : String) (a : Account)
    → 0 < qty
    → Holds capital a
    → Holds capital (execute_buy e c idx qty reason a)
unfolding execute_buy
execute_buy-Holds capital e c idx qty reason a pos h =
    let price = cost_of e c qty + fee_of e c qty in
    let leaves = λ (b : Bool). Holds capital (if b then a else after_buy e c idx qty reason a) in
    elim (Bool-cases (ltb a.portfolio.cash price)) [
      | inl poor ↦ subst⁻¹ leaves poor h
      | inr rich ↦
          let enough = ltb_false→le a.portfolio.cash price rich in
          subst⁻¹ leaves rich (after_buy-Holds capital e c idx qty reason a pos enough h)
    ]

execute_sell-Holds :
    (capital : ℕ) (e : Engine) (c : Candle) (idx qty : ℕ) (reason : String) (a : Account)
    → Holds capital a
    → Holds capital (execute_sell e c idx qty reason a)
unfolding execute_sell
execute_sell-Holds capital e c idx qty reason a h =
    let sell_qty = min qty a.portfolio.position_qty in
    elim (ltb 0 sell_qty)
      as (λ b. Holds capital (if b then after_sell e c idx sell_qty reason a else a)) [
        | true ↦ after_sell-Holds capital e c idx sell_qty reason a (omega arith) h
        | false ↦ h
      ]

execute-Holds :
    (capital : ℕ) (e : Engine) (c : Candle) (idx : ℕ) (o : Order) (a : Account)
    → Holds capital a
    → Holds capital (execute e c idx o a)
unfolding execute
execute-Holds capital e c idx o a h =
    let buys = execute_buy-Holds capital e c idx o.qty o.reason a in
    let sells = execute_sell-Holds capital e c idx o.qty o.reason a h in
    let done : Side → Account = λ s. elim s [
      | Side.buy ↦ execute_buy e c idx o.qty o.reason a
      | Side.sell ↦ execute_sell e c idx o.qty o.reason a
      | Side.other ↦ a
    ] in
    elim (Bool-cases (ltb 0 o.qty)) [
      | inl some_qty ↦
          subst⁻¹ (λ b. Holds capital (if b then done o.side else a)) some_qty
            (elim o.side as (λ s. Holds capital (done s)) [
              | Side.buy ↦ buys (ltb→lt 0 o.qty some_qty) h
              | Side.sell ↦ sells
              | Side.other ↦ h
            ])
      | inr no_qty ↦ subst⁻¹ (λ b. Holds capital (if b then done o.side else a)) no_qty h
    ]

execute_all-Holds :
    (capital : ℕ) (e : Engine) (c : Candle) (idx : ℕ) (os : List Order) (a : Account)
    → Holds capital a
    → Holds capital (execute_all e c idx os a)
unfolding execute_all
execute_all-Holds capital e c idx [] a h = h
execute_all-Holds capital e c idx (o ∷ os) a h =
    execute_all-Holds capital e c idx os (execute e c idx o a) (execute-Holds capital e c idx o a h)

run_from-Holds :
    {S : Type 0} (on_candle : S → ℕ → Candle → Portfolio → S × List Order) (e : Engine)
    (capital idx : ℕ) (cs : List Candle) (s : S) (a : Account)
    → Holds capital a
    → Holds capital (run_from on_candle e idx cs s a)
unfolding run_from mark
run_from-Holds on_candle e capital idx [] s a h = h
run_from-Holds on_candle e capital idx (c ∷ cs) s a h =
    let (s', orders) = on_candle s idx c a.portfolio in
    run_from-Holds on_candle e capital (idx + 1) cs s' (mark c (execute_all e c idx orders a))
      (execute_all-Holds capital e c idx orders a h)

module _ {S : Type 0} (on_candle : S → ℕ → Candle → Portfolio → S × List Order) (e : Engine) where
  run-Holds :
      (s : S) (capital : ℕ) (cs : List Candle) → Holds capital (run on_candle e s capital cs)
  unfolding run opened
  run-Holds s capital cs =
      run_from-Holds on_candle e capital 0 cs s (opened capital)
        (omega arith, omega arith, omega arith, omega arith, omega arith)

  -- Whatever a strategy orders, after every backtest the cash, the fees of the buys and the cost of what is
  -- held are together the initial capital and the profits of the sales, and the cost of what is held
  -- is its amount at the average buying price.
  pub run_balances :
      (s : S) (capital : ℕ) (cs : List Candle)
      → let a = run on_candle e s capital cs in
        let p = a.portfolio in
        let pnl = sum_pnl nothing a.result.trades in
        let fees = sum_of buy_fee a.result.trades in
        IsBalanced capital p.cash fees p.total_cost pnl
        × IsAverage p.total_cost p.position_qty p.avg_buy_price
        × (0 < pnl.over)
  run_balances s capital cs =
      let (balanced, average, dens, avg_pos, overs) = run-Holds s capital cs in
      (balanced, average, overs)

  -- Once nothing is held, the cash and the fees of the buys are the capital and the profits.
  pub closed_balances :
      (s : S) (capital : ℕ) (cs : List Candle)
      → (run on_candle e s capital cs).portfolio.position_qty ≡ 0
      → let a = run on_candle e s capital cs in
        let pnl = sum_pnl nothing a.result.trades in
        let x = a.portfolio.cash + sum_of buy_fee a.result.trades in
        (0 < pnl.over) × (x * pnl.over + pnl.minus ≡ capital * pnl.over + pnl.plus)
  closed_balances s capital cs none_held =
      let (balanced, average, dens, avg_pos, overs) = run-Holds s capital cs in
      let a = run on_candle e s capital cs in
      let p = a.portfolio in
      let pnl = sum_pnl nothing a.result.trades in
      (
        overs,
        cleared (p.cash + sum_of buy_fee a.result.trades) capital p.avg_buy_price.num
            p.avg_buy_price.den p.position_qty p.total_cost.num p.total_cost.den pnl.over pnl.minus
            pnl.plus dens avg_pos none_held average balanced,
      )
