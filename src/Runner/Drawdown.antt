-- ===== src/Runner/Drawdown.antt =====
-- The largest drawdown of runtime/bot/_base_runner.py against the falls between its equities.
use pecunator_accu_monetas.Prelude.{
  ℕ, ◌+◌, ◌-◌, ◌*◌, ◌≤◌, ◌<◌, ◌≡◌, ◌⊎◌, inl, inr, refl, subst⁻¹, Bool-cases, Option, none, some,
  List, [], ◌∷◌, ltb, ltb→lt, ltb_false→le, if◌then◌else◌, All, All-map, arith,
}
use pecunator_accu_monetas.Prelude.Frac.{Frac, of_ℕ, ltb_frac, ◌≤f◌, mul_cancel, mul_mono}
use pecunator_accu_monetas.Runner.Risk.{Risk, init, next_peak, drawdown, register_equity}

-- The state after equities, the newest first.
abbrev pub run : Frac → List ℕ → Risk
run max_pct [] = init
run max_pct (e ∷ es) = (register_equity max_pct e (run max_pct es)).0

-- `(x - e) / x` is at most `m`, and the same of every equity and every later one.
abbrev pub FallsAtMost : Frac → ℕ → ℕ → Type 0
FallsAtMost m x e = x * m.den ≤ e * m.den + m.num * x

abbrev pub AllFallAtMost : Frac → List ℕ → Type 0
AllFallAtMost m [] = Unit
AllFallAtMost m (e ∷ es) = All (λ x. FallsAtMost m x e) es × AllFallAtMost m es

-- `m` is the fall from some equity to a later one.
abbrev pub FallsFrom : Frac → ℕ → List ℕ → Type 0
FallsFrom m e [] = ⊥
FallsFrom m e (x ∷ es) = (m ≡ record { num = x - e; den = x }) ⊎ FallsFrom m e es

abbrev pub HasFall : Frac → List ℕ → Type 0
HasFall m [] = ⊥
HasFall m (e ∷ es) = FallsFrom m e es ⊎ HasFall m es

fall_with_rest :
    (x p e n k : ℕ) → x ≤ p → p * (n + k) ≤ e * (n + k) + n * p → x * (n + k) ≤ e * (n + k) + n * x
fall_with_rest x p e n k h below = let step = mul_mono k x p h in grind arith

-- A fall from the peak bounds the fall from anything below it.
fall_below_peak : (x p e n d : ℕ) → x ≤ p → p * d ≤ e * d + n * p → x * d ≤ e * d + n * x
fall_below_peak x p e n d h k = elim (Bool-cases (ltb n d)) [
  | inl below ↦
      let rest : d ≡ n + (d - n) = ground arith in
      rw rest (fall_with_rest x p e n (d - n) h (rw⁻¹ rest k))
  | inr above ↦ let step = mul_mono x d n (ltb_false→le n d above) in grind arith
]

fall_grows :
    (x e n d n' d' : ℕ) → 0 < d → n * d' ≤ n' * d → x * d ≤ e * d + n * x → x * d' ≤ e * d' + n' * x
fall_grows x e n d n' d' pos h k =
    let step = mul_mono d' (x * d) (e * d + n * x) k in
    let more = mul_mono x (n * d') (n' * d) h in
    mul_cancel d (x * d') (e * d' + n' * x) pos (grind arith)

abbrev Mem : ℕ → List ℕ → Type 0
Mem p [] = ⊥
Mem p (x ∷ xs) = (p ≡ x) ⊎ Mem p xs

-- One of the numbers, and the greatest.
abbrev IsGreatest : ℕ → List ℕ → Type 0
IsGreatest p es = All (λ x. x ≤ p) es × Mem p es

-- The peak is the greatest of the equities.
abbrev IsPeak : List ℕ → Option ℕ → Type 0
IsPeak [] o = o ≡ none
IsPeak (e ∷ es) o = (p : ℕ) × (o ≡ some p) × IsGreatest p (e ∷ es)

next_peak-IsGreatest :
    (e : ℕ) (es : List ℕ) (o : Option ℕ) → IsPeak es o → IsGreatest (next_peak o e) (e ∷ es)
unfolding next_peak
next_peak-IsGreatest e [] o h = rw h ((omega arith, tt), inl refl)
next_peak-IsGreatest e (x ∷ es) o (p, at, (below, mem)) = elim (Bool-cases (ltb p e)) [
  | inl up ↦
      let higher = ltb→lt p e up in
      let all =
        All-map (λ y. y ≤ p) (λ y. y ≤ e) (x ∷ es) (λ y h. omega (arith, h, higher)) below in
      let top : next_peak o e ≡ e = rw (at, next_peak, up) refl in
      subst⁻¹ (λ q. IsGreatest q (e ∷ x ∷ es)) top ((omega arith, all), inl refl)
  | inr down ↦
      let top : next_peak o e ≡ p = rw (at, next_peak, down) refl in
      subst⁻¹ (λ q. IsGreatest q (e ∷ x ∷ es)) top ((ltb_false→le p e down, below), inr mem)
]

drawdown_falls : (p e : ℕ) → (0 < (drawdown p e).den) × (e ≤ p → FallsAtMost (drawdown p e) p e)
unfolding drawdown
drawdown_falls p e = elim (Bool-cases (ltb 0 p)) [
  | inl some_peak ↦ simp (some_peak) (
    ltb→lt 0 p some_peak,
    λ h. let all = mul_mono p p (e + (p - e)) (omega (arith, h)) in grind arith,
  )
  | inr no_peak ↦
      simp (no_peak) (omega arith, λ h. let zero_peak = ltb_false→le 0 p no_peak in grind arith)
]

-- The largest drawdown with a new one is positive in its denominator, and bounds both.
next_drawdown :
    (m dd : Frac) (p e : ℕ)
    → 0 < m.den
    → 0 < dd.den
    → (e ≤ p → FallsAtMost dd p e)
    → let m' = if ltb_frac m dd then dd else m in
      (0 < m'.den) × (m ≤f m') × (e ≤ p → FallsAtMost m' p e)
next_drawdown m dd p e pos pos' falls = elim (Bool-cases (ltb_frac m dd)) [
  | inl up ↦ simp (up) (pos', (ground arith), falls)
  | inr down ↦
      let least = ltb_false→le (m.num * dd.den) (dd.num * m.den) down in
      simp (down)
        (pos, omega arith, λ h. fall_grows p e dd.num dd.den m.num m.den pos' least (falls h))
]

AllFallAtMost-grows :
    (m m' : Frac) (es : List ℕ) → 0 < m.den → m ≤f m' → AllFallAtMost m es → AllFallAtMost m' es
AllFallAtMost-grows m m' [] pos h all = tt
AllFallAtMost-grows m m' (e ∷ es) pos h (falls, all) = (
  All-map (λ x. FallsAtMost m x e) (λ x. FallsAtMost m' x e) es
      (λ x k. fall_grows x e m.num m.den m'.num m'.den pos h k) falls,
  AllFallAtMost-grows m m' es pos h all,
)

peak-FallsFrom :
    (p e : ℕ) (es : List ℕ) → Mem p es → FallsFrom (record { num = p - e; den = p }) e es
peak-FallsFrom p e [] mem = absurd mem
peak-FallsFrom p e (x ∷ es) (inl same) = inl (rw same refl)
peak-FallsFrom p e (x ∷ es) (inr mem) = inr (peak-FallsFrom p e es mem)

-- The state that equities leave: their peak, and a drawdown that bounds their falls and is one of them.
abbrev IsTracked : List ℕ → Risk → Type 0
IsTracked es r =
    IsPeak es r.peak_equity
    × (0 < r.max_drawdown.den)
    × AllFallAtMost r.max_drawdown es
    × ((r.max_drawdown ≡ of_ℕ 0) ⊎ HasFall r.max_drawdown es)

-- A positive drawdown is the fall from the peak.
drawdown-FallsFrom :
    (p e : ℕ) (es : List ℕ)
    → 0 < (drawdown p e).num
    → Mem p (e ∷ es)
    → HasFall (drawdown p e) (e ∷ es)
unfolding drawdown
drawdown-FallsFrom p e es falls (inl same) = absurd (ground arith)
drawdown-FallsFrom p e es falls (inr mem) =
    let fall : drawdown p e ≡ record { num = p - e; den = p } = ground arith in
    subst⁻¹ (λ n. HasFall n (e ∷ es)) fall (inl (peak-FallsFrom p e es mem))

-- A drawdown that replaces another is the fall from the peak.
next_drawdown-HasFall :
    (m : Frac) (p e : ℕ) (es : List ℕ)
    → Mem p (e ∷ es)
    → (m ≡ of_ℕ 0) ⊎ HasFall m es
    → let m' = if ltb_frac m (drawdown p e) then drawdown p e else m in
      (m' ≡ of_ℕ 0) ⊎ HasFall m' (e ∷ es)
next_drawdown-HasFall m p e es mem h = elim (Bool-cases (ltb_frac m (drawdown p e))) [
  | inl up ↦
      let taken : (if ltb_frac m (drawdown p e) then drawdown p e else m) ≡ drawdown p e =
        rw up refl in
      subst⁻¹ (λ n. (n ≡ of_ℕ 0) ⊎ HasFall n (e ∷ es)) taken
        (inr (drawdown-FallsFrom p e es (ground arith) mem))
  | inr down ↦
      let kept : (if ltb_frac m (drawdown p e) then drawdown p e else m) ≡ m = rw down refl in
      subst⁻¹ (λ n. (n ≡ of_ℕ 0) ⊎ HasFall n (e ∷ es)) kept
        (elim h [ inl z ↦ inl z | inr falls ↦ inr (inr falls) ])
]

register_equity-IsTracked :
    (max_pct : Frac) (e : ℕ) (es : List ℕ) (r : Risk)
    → IsTracked es r
    → IsTracked (e ∷ es) (register_equity max_pct e r).0
unfolding register_equity
register_equity-IsTracked max_pct e es r (peak, pos, falls, fall) =
    let p = next_peak r.peak_equity e in
    let (below, mem) = next_peak-IsGreatest e es r.peak_equity peak in
    let m = r.max_drawdown in
    let m' = if ltb_frac m (drawdown p e) then drawdown p e else m in
    let (own, own_falls) = drawdown_falls p e in
    let (pos', more, last) = next_drawdown m (drawdown p e) p e pos own own_falls in
    (
      (p, refl, (below, mem)),
      pos',
      (
        All-map (λ x. x ≤ p) (λ x. FallsAtMost m' x e) es
            (λ x h. fall_below_peak x p e m'.num m'.den h (last below.0)) below.1,
        AllFallAtMost-grows m m' es pos more falls,
      ),
      next_drawdown-HasFall m p e es mem fall,
    )

tracked : (max_pct : Frac) (es : List ℕ) → IsTracked es (run max_pct es)
unfolding init
tracked max_pct [] = (refl, omega arith, tt, inl refl)
tracked max_pct (e ∷ es) =
    register_equity-IsTracked max_pct e es (run max_pct es) (tracked max_pct es)

-- Whatever equities a runner has registered since its start, its largest drawdown is the greatest fall
-- from one of them to a later one, as a part of the earlier: it bounds all these falls, and is
-- 0 or one of them.
pub max_drawdown_is_greatest_fall :
    (max_pct : Frac) (es : List ℕ)
    → let m = (run max_pct es).max_drawdown in
      (0 < m.den) × AllFallAtMost m es × ((m ≡ of_ℕ 0) ⊎ HasFall m es)
max_drawdown_is_greatest_fall max_pct es =
    let (peak, pos, falls, fall) = tracked max_pct es in (pos, falls, fall)
