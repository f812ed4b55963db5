-- ===== src/Backtest/Sums.antt =====
-- The sums over fractions behind the account of runtime/backtest/engine.py.
use pecunator_accu_monetas.Prelude.{ℕ, ◌+◌, ◌-◌, ◌*◌, ◌≤◌, ◌<◌, ◌≡◌, ap, arith}
use pecunator_accu_monetas.Prelude.Frac.{mul_cancel_eq}

pub bought :
    (capital cash fees cost fee n d plus minus o : ℕ)
    → cost + fee ≤ cash
    → (cash + fees) * (d * o) + n * o + minus * d ≡ capital * (d * o) + plus * d
    → (cash - (cost + fee) + (fees + (fee + 0))) * (d * 1 * o)
        + (n * 1 + cost * d) * o
        + minus * (d * 1)
      ≡ capital * (d * 1 * o) + plus * (d * 1)
bought capital cash fees cost fee n d plus minus o enough h =
    let left : cash - (cost + fee) + (fees + fee) + cost ≡ cash + fees = omega (arith, enough) in
    let scaled = ap (λ x. x * (d * o)) left in grind arith

-- A sale of `sold` of `sold + held` at the average `a / b`, for `revenue`.
pub sold_part :
    (capital cash fees revenue a b sold held n d plus minus o : ℕ)
    → 0 < d
    → n * b ≡ a * (sold + held) * d
    → (cash + fees) * (d * o) + n * o + minus * d ≡ capital * (d * o) + plus * d
    → (cash + revenue + (fees + 0)) * (b * (o * b))
        + a * held * (o * b)
        + (minus * b + a * sold * o) * b
      ≡ capital * (b * (o * b)) + (plus * b + revenue * b * o) * b
sold_part capital cash fees revenue a b sold held n d plus minus o pos avg h =
    let scaled = ap (λ x. x * b) h in
    let part = ap (λ x. x * o) avg in
    let cancelled =
      mul_cancel_eq d ((cash + fees) * (o * b) + a * (sold + held) * o + minus * b)
        (capital * (o * b) + plus * b) pos (grind arith) in
    let whole = ap (λ x. x * b) cancelled in grind arith

-- Nothing is held any more.
pub sold_all :
    (x capital a b held o minus plus : ℕ)
    → 0 < b
    → held ≤ 0
    → x * (b * o) + a * held * o + minus * b ≡ capital * (b * o) + plus * b
    → x * (1 * o) + 0 * o + minus * 1 ≡ capital * (1 * o) + plus * 1
sold_all x capital a b held o minus plus pos none_held h =
    let held_zero : held ≡ 0 = omega (arith, none_held) in
    let nothing_left : a * held * o ≡ 0 = rw held_zero (grind arith) in
    let cancelled = mul_cancel_eq b (x * o + minus) (capital * o + plus) pos (grind arith) in
    omega (arith, cancelled)

-- Nothing is held at the end.
pub cleared :
    (x capital a b held n d o minus plus : ℕ)
    → 0 < d
    → 0 < b
    → held ≡ 0
    → n * b ≡ a * held * d
    → x * (d * o) + n * o + minus * d ≡ capital * (d * o) + plus * d
    → x * o + minus ≡ capital * o + plus
cleared x capital a b held n d o minus plus pos pos' none_held avg h =
    let product : a * held * d ≡ 0 = rw none_held (grind arith) in
    let no_cost = mul_cancel_eq b n 0 pos' (grind arith) in
    let left : n * o ≡ 0 = rw no_cost (omega arith) in
    mul_cancel_eq d (x * o + minus) (capital * o + plus) pos (grind arith)
