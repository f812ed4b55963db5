-- ===== src/Backtest/Net.antt =====
-- The net profit that `summary` of runtime/backtest/engine.py reports, against the account.
use pecunator_accu_monetas.Prelude.{
  ℕ, ◌+◌, ◌*◌, ◌≤◌, ◌<◌, ◌≡◌, refl, sym, ap, subst⁻¹, Bool, true, false, Bool-cases, inl, inr,
  Option, none, some, List, [], ◌∷◌, if◌then◌else◌, keep_if, sum_of, arith,
}
use pecunator_accu_monetas.Prelude.Frac.{Signed, add_signed, mul_mono, mul_cancel_eq}
use pecunator_accu_monetas.Backtest.Engine.{Side, Candle, Order, Trade, Portfolio, Engine, run}
use pecunator_accu_monetas.Backtest.Replay.{closed_balances}
use pecunator_accu_monetas.Backtest.Books.{buy_fee, sum_pnl, add_profit}
use pecunator_accu_monetas.Backtest.Summary.{
  nothing, sum_signed, opposite, abs, is_gain, is_loss, closed_pnls, with_closed, summary,
}

-- a = b + c, as numbers.
abbrev IsSum : Signed → Signed → Signed → Type 0
IsSum a b c =
    a.plus * (b.over * c.over) + (b.minus * c.over + c.minus * b.over) * a.over
    ≡ a.minus * (b.over * c.over) + (b.plus * c.over + c.plus * b.over) * a.over

gain_step : (a b c p : Signed) → IsSum a b c → IsSum (add_signed a p) (add_signed b p) c
gain_step a b c p h = let scaled = ap (λ x. x * (p.over * p.over)) h in grind arith

loss_step : (a b c p : Signed) → IsSum a b c → IsSum (add_signed a p) b (add_signed c p)
loss_step a b c p h = let scaled = ap (λ x. x * (p.over * p.over)) h in grind arith

even_step : (a b c p : Signed) → p.plus ≡ p.minus → IsSum a b c → IsSum (add_signed a p) b c
even_step a b c p even h = let scaled = ap (λ x. x * p.over) h in rw even (grind arith)

-- The sum of all is the sum of the gains and of the losses, and the losses are none above 0.
sums_split :
    (ps : List Signed) (a b c : Signed)
    → IsSum a b c
    → IsSum
        (sum_signed a ps)
        (sum_signed b (keep_if is_gain ps))
        (sum_signed c (keep_if is_loss ps))
sums_split [] a b c h = h
sums_split (p ∷ ps) a b c h =
    let gains = keep_if is_gain ps in
    let losses = keep_if is_loss ps in
    let split = λ (g l : Bool).
      IsSum (sum_signed (add_signed a p) ps) (sum_signed b (if g then p ∷ gains else gains))
        (sum_signed c (if l then p ∷ losses else losses)) in
    elim (Bool-cases (is_gain p)) [
      | inl gain ↦
          let no_loss : is_loss p ≡ false = ground arith in
          subst⁻¹ (λ g. split g (is_loss p)) gain
            (subst⁻¹ (split true) no_loss
              (sums_split ps (add_signed a p) (add_signed b p) c (gain_step a b c p h)))
      | inr no_gain ↦
          subst⁻¹ (λ g. split g (is_loss p)) no_gain
            (elim (Bool-cases (is_loss p)) [
              | inl loss ↦
                  subst⁻¹ (split false) loss
                    (sums_split ps (add_signed a p) b (add_signed c p) (loss_step a b c p h))
              | inr no_loss ↦
                  subst⁻¹ (split false) no_loss
                    (sums_split ps (add_signed a p) b c (even_step a b c p (ground arith) h))
            ])
    ]

losses_low :
    (ps : List Signed) (c : Signed)
    → c.plus ≤ c.minus
    → (sum_signed c (keep_if is_loss ps)).plus ≤ (sum_signed c (keep_if is_loss ps)).minus
losses_low [] c h = h
losses_low (p ∷ ps) c h =
    let losses = keep_if is_loss ps in
    let low =
      λ (l : Bool). let s = sum_signed c (if l then p ∷ losses else losses) in s.plus ≤ s.minus in
    elim (Bool-cases (is_loss p)) [
      | inl loss ↦
          let one = mul_mono p.over c.plus c.minus h in
          let two = mul_mono c.over p.plus p.minus (ground arith) in
          subst⁻¹ low loss (losses_low ps (add_signed c p) (grind arith))
      | inr no_loss ↦ subst⁻¹ low no_loss (losses_low ps c h)
    ]

-- Less the size of a loss.
opposite-abs : (s : Signed) → s.plus ≤ s.minus → opposite (abs s) ≡ s
opposite-abs s h = ground arith

closed_step :
    (d : Side) (o : Option Signed) (ts : List Trade) (s : Signed)
    → ((s : Signed) → sum_pnl s ts ≡ sum_signed s (closed_pnls ts))
    → sum_pnl (add_profit d o s) ts ≡ sum_signed s (with_closed d o (closed_pnls ts))
closed_step Side.sell (some p) ts s h = h (add_signed s p)
closed_step Side.sell none ts s h = h s
closed_step Side.buy o ts s h = h s
closed_step Side.other o ts s h = h s

sum_closed : (ts : List Trade) (s : Signed) → sum_pnl s ts ≡ sum_signed s (closed_pnls ts)
unfolding closed_pnls
sum_closed [] s = refl
sum_closed (t ∷ ts) s = closed_step t.side t.pnl ts s (sum_closed ts)

-- The books in the terms of a sum that is equal to the profits.
in_terms_of :
    (x capital : ℕ) (pnl net : Signed)
    → 0 < pnl.over
    → pnl.plus * net.over + net.minus * pnl.over ≡ pnl.minus * net.over + net.plus * pnl.over
    → x * pnl.over + pnl.minus ≡ capital * pnl.over + pnl.plus
    → x * net.over + net.minus ≡ capital * net.over + net.plus
in_terms_of x capital pnl net pos same h =
    let scaled = ap (λ y. y * net.over) h in
    mul_cancel_eq pnl.over (x * net.over + net.minus) (capital * net.over + net.plus) pos
      (grind arith)

-- Once nothing is held, the gain in cash is the net profit of the summary less the fees of the buys.
pub net_pnl_without_buy_fees :
    {S : Type 0} (on_candle : S → ℕ → Candle → Portfolio → S × List Order) (e : Engine) (s : S)
    (capital : ℕ) (cs : List Candle)
    → (run on_candle e s capital cs).portfolio.position_qty ≡ 0
    → let a = run on_candle e s capital cs in
      let net = (summary a.result.trades).net_pnl in
      (a.portfolio.cash + sum_of buy_fee a.result.trades) * net.over + net.minus
      ≡ capital * net.over + net.plus
unfolding summary
net_pnl_without_buy_fees on_candle e s capital cs none_held =
    let a = run on_candle e s capital cs in
    let pnls = closed_pnls a.result.trades in
    let win = sum_signed nothing (keep_if is_gain pnls) in
    let lose = sum_signed nothing (keep_if is_loss pnls) in
    let x = a.portfolio.cash + sum_of buy_fee a.result.trades in
    let same = sums_split pnls nothing nothing nothing refl in
    let low = opposite-abs lose (losses_low pnls nothing (omega arith)) in
    let (pos, books) =
      subst⁻¹ (λ q. (0 < q.over) × (x * q.over + q.minus ≡ capital * q.over + q.plus))
        (sym (sum_closed a.result.trades nothing))
        (closed_balances on_candle e s capital cs none_held) in
    subst⁻¹
      (λ l. let net = add_signed win l in x * net.over + net.minus ≡ capital * net.over + net.plus)
      low (in_terms_of x capital (sum_signed nothing pnls) (add_signed win lose) pos same books)
