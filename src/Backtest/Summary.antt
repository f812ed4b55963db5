-- ===== src/Backtest/Summary.antt =====
-- `summary` of runtime/backtest/engine.py: the counts, the gains, the losses and the net profit of the
-- closed trades. The factor and the rates that are printed of them are not modelled.
use pecunator_accu_monetas.Prelude.{
  ℕ, Bool, Option, none, some, List, [], ◌∷◌, ltb, if◌then◌else◌, length, keep_if, sum_of,
}
use pecunator_accu_monetas.Prelude.Frac.{Signed, add_signed}
use pecunator_accu_monetas.Backtest.Engine.{Side, Trade}

pub record Summary : Type 0 where
  pub total_trades : ℕ
  pub winners : ℕ
  pub losers : ℕ
  pub net_pnl : Signed
  pub gross_win : Signed
  pub gross_loss : Signed
  pub total_fees : ℕ

-- `sum`, from a start.
abbrev pub sum_signed : Signed → List Signed → Signed
sum_signed s [] = s
sum_signed s (p ∷ ps) = sum_signed (add_signed s p) ps

abbrev pub nothing : Signed
nothing = record { plus = 0; minus = 0; over = 1 }

abbrev pub opposite : Signed → Signed
opposite s = record { plus = s.minus; minus = s.plus; over = s.over }

-- `abs`
abbrev pub abs : Signed → Signed
abs s = if ltb s.plus s.minus then opposite s else s

abbrev pub is_gain : Signed → Bool
is_gain p = ltb p.minus p.plus

abbrev pub is_loss : Signed → Bool
is_loss p = ltb p.plus p.minus

-- The profits with that of a trade, if it is a sell that has one.
abbrev pub with_closed : Side → Option Signed → List Signed → List Signed
with_closed Side.sell (some p) ps = p ∷ ps
with_closed Side.sell none ps = ps
with_closed Side.buy o ps = ps
with_closed Side.other o ps = ps

-- The profits of the closed trades.
unfoldable pub closed_pnls : List Trade → List Signed
closed_pnls [] = []
closed_pnls (t ∷ ts) = with_closed t.side t.pnl (closed_pnls ts)

unfoldable pub summary : List Trade → Summary
summary ts =
    let pnls = closed_pnls ts in
    let gains = keep_if is_gain pnls in
    let losses = keep_if is_loss pnls in
    let gross_win = sum_signed nothing gains in
    let gross_loss = abs (sum_signed nothing losses) in
    record {
      total_trades = length ts;
      winners = length gains;
      losers = length losses;
      net_pnl = add_signed gross_win (opposite gross_loss);
      gross_win = gross_win;
      gross_loss = gross_loss;
      total_fees = sum_of (λ t. t.fee) ts;
    }
