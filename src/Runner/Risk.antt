-- ===== src/Runner/Risk.antt =====
-- The equity that `BaseStrategyRunner` of runtime/bot/_base_runner.py keeps track of: the peak, the
-- drawdown and the returns. An equity is a whole number of one unit, a sum of balances at their
-- prices; drawdowns and returns are exact fractions, where the source rounds to 28 digits.
use pecunator_accu_monetas.Prelude.{
  ℕ, ◌-◌, Bool, ◌&&◌, Option, none, some, List, [], ◌∷◌, ◌++◌, ltb, if◌then◌else◌, length,
}
use pecunator_accu_monetas.Prelude.Int.{ℤ, pos_part}
use pecunator_accu_monetas.Prelude.Frac.{Frac, Signed, of_ℕ, is_pos, ltb_frac}
use pecunator_accu_monetas.Prelude.Slices.{last_n}

pub record Risk : Type 0 where
  pub peak_equity : Option ℕ
  pub max_drawdown : Frac
  pub equity_returns : List Signed
  pub cycle_count : ℕ

-- `__init__`
unfoldable pub init : Risk
init = record { peak_equity = none; max_drawdown = of_ℕ 0; equity_returns = []; cycle_count = 0 }

-- What is restored of the peak, the drawdown and the count, and what is kept where nothing is given.
unfoldable pub restored_peak : Option ℤ → Option ℕ → Option ℕ
restored_peak none kept = kept
restored_peak (some v) kept = if ltb 0 (pos_part v) then some (pos_part v) else none

unfoldable pub restored_drawdown : Option Signed → Frac → Frac
restored_drawdown none kept = kept
restored_drawdown (some v) kept = record { num = v.plus - v.minus; den = v.over }

unfoldable pub restored_count : Option ℤ → ℕ → ℕ
restored_count none kept = kept
restored_count (some n) kept = pos_part n

-- `restore_risk_state`, on the numbers that the texts stand for.
unfoldable pub restore_risk_state : Option ℤ → Option Signed → Option ℤ → Risk → Risk
restore_risk_state peak drawdown count r = record r {
  peak_equity = restored_peak peak r.peak_equity;
  max_drawdown = restored_drawdown drawdown r.max_drawdown;
  cycle_count = restored_count count r.cycle_count;
}

-- The peak with a new equity.
unfoldable pub next_peak : Option ℕ → ℕ → ℕ
next_peak none equity = equity
next_peak (some p) equity = if ltb p equity then equity else p

-- `(peak - equity) / peak`, and 0 at a peak of 0.
unfoldable pub drawdown : ℕ → ℕ → Frac
drawdown peak equity = if ltb 0 peak then record { num = peak - equity; den = peak } else of_ℕ 0

-- `_register_equity`, with the configured largest drawdown; it answers with the drawdown and whether it
-- blocks.
unfoldable pub register_equity : Frac → ℕ → Risk → Risk × Frac × Bool
register_equity max_drawdown_pct equity r =
    let peak = next_peak r.peak_equity equity in
    let dd = drawdown peak equity in
    let r' : Risk = record r {
      peak_equity = some peak;
      max_drawdown = if ltb_frac r.max_drawdown dd then dd else r.max_drawdown;
    } in
    (r', dd, is_pos max_drawdown_pct && ltb_frac max_drawdown_pct dd)

-- `(equity - prev_equity) / prev_equity`
unfoldable pub return_of : ℕ → ℕ → Signed
return_of prev equity = record { plus = equity; minus = prev; over = prev }

-- The return after an earlier equity that is positive.
unfoldable pub record_positive : ℕ → ℕ → Risk → Risk
record_positive prev equity r =
    let all = r.equity_returns ++ return_of prev equity ∷ [] in
    record r { equity_returns = if ltb 500 (length all) then last_n 500 all else all }

-- `_record_return`
unfoldable pub record_return : Option ℕ → ℕ → Risk → Risk
record_return none equity r = r
record_return (some prev) equity r = if ltb 0 prev then record_positive prev equity r else r
