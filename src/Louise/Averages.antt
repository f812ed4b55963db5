-- ===== src/Louise/Averages.antt =====
-- The total cost and the average price of an epoch over the fills of runtime/bot/louise.py.
use pecunator_accu_monetas.Prelude.{
  All, ◌⊎◌, inl, inr, ap, ◌∙◌, ℕ, ◌+◌, ◌*◌, ◌<◌, ◌≡◌, List, [], ◌∷◌, arith,
}
use pecunator_accu_monetas.Prelude.Frac.{mul_pos, Frac, of_ℕ, add, mul, div, ◌≈◌}
use pecunator_accu_monetas.Louise.Store.{Epoch}
use pecunator_accu_monetas.Louise.Fills.{Report, new_cost, new_avg_price, current_volume}

-- A fill with a positive volume and a positive cost.
abbrev pub IsFill : Report → Type 0
IsFill r = (0 < r.volume.num) × (0 < r.volume.den) × (0 < r.cost_usdt.num) × (0 < r.cost_usdt.den)

-- The figures of an epoch after a fill, as they are written to the store.
abbrev pub after_fill : Report → Epoch → Epoch
after_fill r e = record e {
  num_purchases = e.num_purchases + 1;
  total_cost = new_cost e r;
  avg_buy_price = new_avg_price e r;
}

-- `volume` is what the epoch's cost bought at its average price, unless it has no purchase yet.
pub record Averages (e : Epoch) (volume : Frac) : Type 0 where
  pub exact : mul e.avg_buy_price volume ≈ e.total_cost
  pub cost_den : 0 < e.total_cost.den
  pub avg_den : 0 < e.avg_buy_price.den
  pub volume_den : 0 < volume.den
  pub started :
      ((0 < e.total_cost.num) × (0 < e.avg_buy_price.num) × (0 < volume.num))
      ⊎ ((e.total_cost.num ≡ 0) × (e.avg_buy_price.num ≡ 0) × (volume.num ≡ 0))

step_exact :
    (cn cd an ad vn vd wn wd n z : ℕ)
    → an * vn * cd ≡ cn * (ad * vd)
    → n * (cd * an * wd) * (vn * wd + wn * vd) * (cd * z)
      ≡ n * (cd * z * (cn * ad * wd + wn * (cd * an)) * (vd * wd))
step_exact cn cd an ad vn vd wn wd n z h =
    omega (arith, ap (λ x. n * (cd * z) * wd * (x * wd + cd * an * wn * vd)) h)

-- The volume before a fill, where the epoch has purchases and where it has none.
new_avg_price_started :
    (e : Epoch) (r : Report)
    → 0 < e.avg_buy_price.num
    → IsFill r
    → 0 < e.total_cost.den
    → new_avg_price e r ≡ div (new_cost e r) (add (div e.total_cost e.avg_buy_price) r.volume)
unfolding new_avg_price current_volume
new_avg_price_started e r h (wn, wd, zn, zd) hd =
    let pos =
      mul_pos r.volume.num (e.total_cost.den * e.avg_buy_price.num) wn
        (mul_pos e.total_cost.den e.avg_buy_price.num hd h) in
    ground arith

new_avg_price_first :
    (e : Epoch) (r : Report)
    → e.avg_buy_price.num ≡ 0
    → IsFill r
    → new_avg_price e r ≡ div (new_cost e r) (add (of_ℕ 0) r.volume)
unfolding new_avg_price current_volume
new_avg_price_first e r h (wn, wd, zn, zd) = ground arith

sum_pos : (a b x y : ℕ) → 0 < x → 0 < y → 0 < a + x * y
sum_pos a b x y h k = grind arith

step_started :
    (e : Epoch) (volume : Frac) (r : Report)
    → Averages e volume
    → (0 < e.total_cost.num) × (0 < e.avg_buy_price.num) × (0 < volume.num)
    → IsFill r
    → Averages (after_fill r e) (add volume r.volume)
unfolding new_cost
step_started e volume r h (cn, an, vn) (wn, wd, zn, zd) =
    let eq = new_avg_price_started e r an (wn, wd, zn, zd) h.cost_den in
    let c = e.total_cost in
    let a = e.avg_buy_price in
    let cost_pos = sum_pos (c.num * r.cost_usdt.den) 0 r.cost_usdt.num c.den zn h.cost_den in
    let ca = mul_pos c.den a.num h.cost_den an in
    let cost_den = mul_pos c.den r.cost_usdt.den h.cost_den zd in
    record {
      exact = rw (eq) (
          step_exact c.num c.den a.num a.den volume.num volume.den r.volume.num r.volume.den
            (c.num * r.cost_usdt.den + r.cost_usdt.num * c.den) r.cost_usdt.den h.exact);
      cost_den = cost_den;
      avg_den = rw (eq) (
          mul_pos _ _ cost_den
            (sum_pos (c.num * a.den * r.volume.den) 0 r.volume.num (c.den * a.num) wn ca));
      volume_den = mul_pos volume.den r.volume.den h.volume_den wd;
      started = inl (
        cost_pos,
        rw (eq) (mul_pos _ _ cost_pos (mul_pos _ _ ca wd)),
        sum_pos (volume.num * r.volume.den) 0 r.volume.num volume.den wn h.volume_den,
      );
    }

first_exact :
    (n cd vd wn wd z : ℕ)
    → n * (1 * wd) * (0 * wd + wn * vd) * (cd * z) ≡ n * (cd * z * (0 * wd + wn * 1) * (vd * wd))
first_exact n cd vd wn wd z = omega arith

step_first :
    (e : Epoch) (volume : Frac) (r : Report)
    → Averages e volume
    → (e.total_cost.num ≡ 0) × (e.avg_buy_price.num ≡ 0) × (volume.num ≡ 0)
    → IsFill r
    → Averages (after_fill r e) (add volume r.volume)
unfolding new_cost
step_first e volume r h (cn, an, vn) (wn, wd, zn, zd) =
    let eq = new_avg_price_first e r an (wn, wd, zn, zd) in
    let c = e.total_cost in
    let cost_pos = sum_pos (c.num * r.cost_usdt.den) 0 r.cost_usdt.num c.den zn h.cost_den in
    let cost_den = mul_pos c.den r.cost_usdt.den h.cost_den zd in
    record {
      exact = rw (eq) (
          ap
            (λ v.
              (c.num * r.cost_usdt.den + r.cost_usdt.num * c.den)
              * (1 * r.volume.den)
              * (v * r.volume.den + r.volume.num * volume.den)
              * (c.den * r.cost_usdt.den))
            vn
          ∙ first_exact (c.num * r.cost_usdt.den + r.cost_usdt.num * c.den) c.den volume.den
              r.volume.num r.volume.den r.cost_usdt.den);
      cost_den = cost_den;
      avg_den =
          rw (eq)
            (mul_pos _ _ cost_den (sum_pos (0 * r.volume.den) 0 r.volume.num 1 wn (omega arith)));
      volume_den = mul_pos volume.den r.volume.den h.volume_den wd;
      started = inl (
        cost_pos,
        rw (eq) (mul_pos _ _ cost_pos (mul_pos 1 _ (omega arith) wd)),
        sum_pos (volume.num * r.volume.den) 0 r.volume.num volume.den wn h.volume_den,
      );
    }

step-Averages :
    (e : Epoch) (volume : Frac) (r : Report)
    → Averages e volume
    → IsFill r
    → Averages (after_fill r e) (add volume r.volume)
step-Averages e volume r h fill = elim h.started [
  | inl started ↦ step_started e volume r h started fill
  | inr first ↦ step_first e volume r h first fill
]

-- The fills of one epoch, each with the figures that the one before it left.
abbrev pub after_fills : List Report → Epoch → Epoch
after_fills [] e = e
after_fills (r ∷ rs) e = after_fills rs (after_fill r e)

abbrev pub total_volume : List Report → Frac → Frac
total_volume [] v = v
total_volume (r ∷ rs) v = total_volume rs (add v r.volume)

-- Where each fill has a positive volume and cost and meets the figures that the one before it left,
-- the average price of an epoch times the volume bought is its total cost, after any number of fills.
pub after_fills-Averages :
    (rs : List Report) (e : Epoch) (volume : Frac)
    → Averages e volume
    → All IsFill rs
    → Averages (after_fills rs e) (total_volume rs volume)
after_fills-Averages [] e volume h fills = h
after_fills-Averages (r ∷ rs) e volume h (fill, fills) =
    after_fills-Averages rs (after_fill r e) (add volume r.volume) (step-Averages e volume r h fill)
      fills
