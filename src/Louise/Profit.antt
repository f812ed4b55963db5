-- ===== src/Louise/Profit.antt =====
-- The take-profit test of `poll_market` of runtime/bot/louise.py.
use pecunator_accu_monetas.Prelude.{ℕ, ◌+◌, ◌*◌, ◌≤◌, ◌<◌, ◌≡◌, ◌↔◌, true, arith, leb}
use pecunator_accu_monetas.Prelude.Frac.{
  Frac, of_ℕ, add, mul, leb_signed, ◌≤f◌, mul_cancel, mul_mono, mul_pos,
}
use pecunator_accu_monetas.Louise.Store.{Epoch}
use pecunator_accu_monetas.Louise.Poll.{profit_pct, profit_usdt, current_value}

-- The factor that the cost of the epoch adds to both sides cancels.
scaled_le : (k a b : ℕ) {a' b' : ℕ} → 0 < k → a' ≡ k * a → b' ≡ k * b → (leb a' b' ≡ true) ↔ (a ≤ b)
scaled_le k a b {a'} {b'} h p q =
    let cancel = mul_cancel k a b h in let mono = mul_mono k a b in ground arith

-- The profit of an epoch with a positive cost reaches the target exactly if the price reaches the
-- average price plus the target's percentage of it; the cost has no part in it.
pub profit_pct_iff_price :
    (e : Epoch) (target price : Frac)
    → 0 < e.total_cost.num
    → 0 < e.total_cost.den
    → (leb_signed target (profit_pct e price) ≡ true)
      ↔ (mul e.avg_buy_price (add (of_ℕ 100) target) ≤f mul price (of_ℕ 100))
unfolding profit_pct profit_usdt current_value
profit_pct_iff_price e target price hn hd =
    let c = e.total_cost in
    let a = e.avg_buy_price in
    scaled_le (c.num * (c.den * c.den))
      (a.num * (100 * target.den + target.num * 1) * (price.den * 1))
      (price.num * 100 * (a.den * (1 * target.den)))
      (mul_pos c.num (c.den * c.den) hn (mul_pos c.den c.den hd hd)) (omega arith) (omega arith)
