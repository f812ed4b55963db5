-- ===== src/Trend/Halves.antt =====
-- The mean of two fractions lies between them.
use pecunator_accu_monetas.Prelude.{ℕ, ◌*◌, ◌<◌, ◌≡◌, ◌↔◌, arith}
use pecunator_accu_monetas.Prelude.Frac.{Frac, add, ltb_frac}
use pecunator_accu_monetas.Trend.Candles.{half}

-- a < b exactly if k * a < k * b, for a positive k.
scaled_less : (k a b : ℕ) → 0 < k → (k * a < k * b) ↔ (a < b)
scaled_less k a b pos = grind arith

pub mean_above : (p q : Frac) → 0 < p.den → ltb_frac p (half (add p q)) ≡ ltb_frac p q
mean_above p q pos =
    let scaled = scaled_less p.den (p.num * q.den) (q.num * p.den) pos in ground arith

pub mean_below : (p q : Frac) → 0 < p.den → ltb_frac (half (add p q)) p ≡ ltb_frac q p
mean_below p q pos =
    let scaled = scaled_less p.den (q.num * p.den) (p.num * q.den) pos in ground arith
