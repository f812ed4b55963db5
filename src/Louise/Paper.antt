-- ===== src/Louise/Paper.antt =====
-- What the report of a paper buy of runtime/bot/louise.py, which has no volume, does to the figures
-- of its epoch.
use pecunator_accu_monetas.Prelude.{ℕ, ◌+◌, ◌*◌, ◌<◌, ◌≡◌, refl, true, arith, ltb}
use pecunator_accu_monetas.Prelude.Frac.{Frac, of_ℕ, add, div, ltb_frac, ◌≈◌, mul_pos}
use pecunator_accu_monetas.Louise.Store.{Epoch}
use pecunator_accu_monetas.Louise.Fills.{Report, new_cost, new_avg_price, current_volume}
use pecunator_accu_monetas.Louise.Orders.{paper_buy}

lt_mul : (k a b : ℕ) {a' b' : ℕ} → 0 < k → a < b → a' ≡ k * a → b' ≡ k * b → ltb a' b' ≡ true
lt_mul k a b h l p q = grind arith

paper_avg_price :
    (e : Epoch) (r : Report)
    → 0 < e.avg_buy_price.num
    → 0 < e.total_cost.num
    → 0 < e.avg_buy_price.den
    → r.volume ≡ of_ℕ 0
    → new_avg_price e r ≡ div (new_cost e r) (add (div e.total_cost e.avg_buy_price) (of_ℕ 0))
unfolding new_avg_price current_volume
paper_avg_price e r an cn ad v =
    let pos = mul_pos e.total_cost.num e.avg_buy_price.den cn ad in ground arith

-- On an epoch with purchases, the report of a paper buy raises the average price, whatever the price
-- it was bought at, and leaves the quantity that a sale of the epoch is for.
pub paper_buy_raises_average :
    (e : Epoch) (placed_at cost : ℕ) (price : Frac)
    → 0 < e.avg_buy_price.num
    → 0 < e.avg_buy_price.den
    → 0 < e.total_cost.num
    → 0 < e.total_cost.den
    → 0 < cost
    → let r = paper_buy placed_at cost price in
      (ltb_frac e.avg_buy_price (new_avg_price e r) ≡ true)
      × (div (new_cost e r) (new_avg_price e r) ≈ div e.total_cost e.avg_buy_price)
unfolding new_cost paper_buy
paper_buy_raises_average e placed_at cost price an ad cn cd hc =
    let r = paper_buy placed_at cost price in
    let eq = paper_avg_price e r an cn ad refl in
    let c = e.total_cost in
    let a = e.avg_buy_price in
    rw (eq) (
      lt_mul (a.num * a.den * c.den) c.num (c.num * 1 + cost * c.den)
          (mul_pos _ _ (mul_pos _ _ an ad) cd) (omega (arith, mul_pos cost c.den hc cd))
          (omega arith) (omega arith),
      omega arith,
    )
