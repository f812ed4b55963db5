-- ===== src/Backtest/Books.antt =====
-- The account of runtime/backtest/engine.py against the profits of its trades.
use Prim.Native.String.{String}
use pecunator_accu_monetas.Prelude.{
  ℕ, ◌+◌, ◌-◌, ◌*◌, ◌≤◌, ◌<◌, ◌≡◌, refl, ap, ◌∙◌, subst⁻¹, true, Bool-cases, inl, inr, Option, none,
  some, List, [], ◌∷◌, ◌++◌, ltb, ltb→lt, ltb_false→le, if◌then◌else◌, sum_of, sum_of-append, arith,
}
use pecunator_accu_monetas.Prelude.Frac.{Frac, Signed, of_ℕ, add, add_signed, mul_pos}
use pecunator_accu_monetas.Backtest.Summary.{nothing}
use pecunator_accu_monetas.Backtest.Sums.{bought, sold_part, sold_all}
use pecunator_accu_monetas.Backtest.Engine.{
  Candle, Side, Trade, Portfolio, Result, Engine, Account, with_trade, after_buy, after_sell,
  cost_of, fee_of, net_revenue, over, times, profit,
}

-- The fee of a trade that buys.
abbrev pub buy_fee : Trade → ℕ
buy_fee t = elim t.side [ Side.buy ↦ t.fee | Side.sell ↦ 0 | Side.other ↦ 0 ]

-- The profits of sales, added to a sum.
abbrev pub add_profit : Side → Option Signed → Signed → Signed
add_profit Side.sell (some p) s = add_signed s p
add_profit Side.sell none s = s
add_profit Side.buy o s = s
add_profit Side.other o s = s

abbrev pub add_pnl : Signed → Trade → Signed
add_pnl s t = add_profit t.side t.pnl s

abbrev pub sum_pnl : Signed → List Trade → Signed
sum_pnl s [] = s
sum_pnl s (t ∷ ts) = sum_pnl (add_pnl s t) ts

-- Cash, the cost of what is held and the fees of the buys are the capital and the profits.
abbrev pub IsBalanced : ℕ → ℕ → ℕ → Frac → Signed → Type 0
IsBalanced capital cash fees tc s =
    (cash + fees) * (tc.den * s.over) + tc.num * s.over + s.minus * tc.den
    ≡ capital * (tc.den * s.over) + s.plus * tc.den

-- The cost is the average price of what is held.
abbrev pub IsAverage : Frac → ℕ → Frac → Type 0
IsAverage tc held avg = tc.num * avg.den ≡ avg.num * held * tc.den

abbrev pub Holds : ℕ → Account → Type 0
Holds capital a =
    let p = a.portfolio in
    let s = sum_pnl nothing a.result.trades in
    IsBalanced capital p.cash (sum_of buy_fee a.result.trades) p.total_cost s
    × IsAverage p.total_cost p.position_qty p.avg_buy_price
    × (0 < p.total_cost.den)
    × (0 < p.avg_buy_price.den)
    × (0 < s.over)

sum_pnl-append :
    (s : Signed) (ts : List Trade) (t : Trade) → sum_pnl s (ts ++ t ∷ []) ≡ add_pnl (sum_pnl s ts) t
sum_pnl-append s [] t = refl
sum_pnl-append s (u ∷ ts) t = sum_pnl-append (add_pnl s u) ts t

abbrev HoldsOf : ℕ → ℕ → ℕ → Frac → ℕ → Frac → Signed → Type 0
HoldsOf capital cash fees tc held avg s =
    IsBalanced capital cash fees tc s
    × IsAverage tc held avg
    × (0 < tc.den)
    × (0 < avg.den)
    × (0 < s.over)

-- What a trade adds to the sums.
with_trade-Holds :
    (capital : ℕ) (p : Portfolio) (r : Result) (t : Trade)
    → HoldsOf capital p.cash
        (sum_of buy_fee r.trades + (buy_fee t + 0))
        p.total_cost
        p.position_qty
        p.avg_buy_price
        (add_pnl (sum_pnl nothing r.trades) t)
    → Holds capital (record { portfolio = p; result = with_trade t r })
with_trade-Holds capital p r t h =
    subst⁻¹
      (λ f.
        HoldsOf capital p.cash f p.total_cost p.position_qty p.avg_buy_price
          (sum_pnl nothing (r.trades ++ t ∷ [])))
      (sum_of-append buy_fee r.trades (t ∷ []))
      (subst⁻¹
        (λ s.
          HoldsOf capital p.cash (sum_of buy_fee r.trades + (buy_fee t + 0)) p.total_cost
            p.position_qty p.avg_buy_price s)
        (sum_pnl-append nothing r.trades t) h)

pub after_buy-Holds :
    (capital : ℕ) (e : Engine) (c : Candle) (idx qty : ℕ) (reason : String) (a : Account)
    → 0 < qty
    → cost_of e c qty + fee_of e c qty ≤ a.portfolio.cash
    → Holds capital a
    → Holds capital (after_buy e c idx qty reason a)
unfolding after_buy
after_buy-Holds capital e c idx qty reason a pos enough (balanced, average, dens, avg_pos, overs) =
    let p = a.portfolio in
    let s = sum_pnl nothing a.result.trades in
    let fees = sum_of buy_fee a.result.trades in
    let cost = cost_of e c qty in
    let fee = fee_of e c qty in
    let spent = add p.total_cost (of_ℕ cost) in
    let held = p.position_qty + qty in
    let some_held : ltb 0 held ≡ true = ground arith in
    with_trade-Holds capital (after_buy e c idx qty reason a).portfolio a.result _ (
      subst⁻¹
        (λ b.
          HoldsOf capital (p.cash - (cost + fee)) (fees + (fee + 0)) spent held
            (if b then over spent held else p.avg_buy_price) s)
        some_held
        (
          bought capital p.cash fees cost fee p.total_cost.num p.total_cost.den s.plus s.minus
              s.over enough balanced,
          omega arith,
          omega (arith, dens),
          mul_pos (p.total_cost.den * 1) held (omega (arith, dens)) (ltb→lt 0 held some_held),
          overs,
        ))

pub after_sell-Holds :
    (capital : ℕ) (e : Engine) (c : Candle) (idx qty : ℕ) (reason : String) (a : Account)
    → qty ≤ a.portfolio.position_qty
    → Holds capital a
    → Holds capital (after_sell e c idx qty reason a)
unfolding after_sell
after_sell-Holds capital e c idx qty reason a enough (balanced, average, dens, avg_pos, overs) =
    let p = a.portfolio in
    let s = sum_pnl nothing a.result.trades in
    let fees = sum_of buy_fee a.result.trades in
    let held = p.position_qty - qty in
    let revenue = net_revenue e c qty in
    let avg = p.avg_buy_price in
    let s' = add_signed s (profit revenue (times avg qty)) in
    let whole : p.position_qty ≡ qty + held = omega (arith, enough) in
    let average' : p.total_cost.num * avg.den ≡ avg.num * (qty + held) * p.total_cost.den =
      average ∙ ap (λ n. avg.num * n * p.total_cost.den) whole in
    let part =
      sold_part capital p.cash fees revenue avg.num avg.den qty held p.total_cost.num
        p.total_cost.den s.plus s.minus s.over dens average' balanced in
    let over_pos = mul_pos s.over avg.den overs avg_pos in
    with_trade-Holds capital (after_sell e c idx qty reason a).portfolio a.result _
      (elim (Bool-cases (ltb 0 held)) [
        | inl some_held ↦
            subst⁻¹
              (λ b.
                HoldsOf capital (p.cash + revenue) (fees + 0) (if b then times avg held else of_ℕ 0)
                  held (if b then avg else of_ℕ 0) s')
              some_held (part, refl, avg_pos, avg_pos, over_pos)
        | inr none_held ↦
            subst⁻¹
              (λ b.
                HoldsOf capital (p.cash + revenue) (fees + 0) (if b then times avg held else of_ℕ 0)
                  held (if b then avg else of_ℕ 0) s')
              none_held
              (
                sold_all (p.cash + revenue + (fees + 0)) capital avg.num avg.den held s'.over
                    s'.minus s'.plus avg_pos (ltb_false→le 0 held none_held) part,
                omega arith,
                omega arith,
                omega arith,
                over_pos,
              )
      ])
