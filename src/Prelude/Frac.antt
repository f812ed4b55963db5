-- ===== src/Prelude/Frac.antt =====
-- Exact fractions: what the `Decimal` computations of the program stand for when rounding to 28
-- digits is left out. `Frac` is a fraction that is not negative, `Signed` a difference of two
-- numbers over a denominator. Division by a zero fraction gives the denominator 0: the code that
-- would raise there tests for it first.
use Prim.Native.Nat.{ℕ, ◌+◌, ◌-◌, ◌*◌, ◌≤◌, ◌<◌}
use mathlib.Core.Path.{◌≡◌}
use mathlib.Core.Bool.{Bool}
use native.Mathlib.Omega.{arith}
use pecunator_accu_monetas.Prelude.Tests.{ltb, leb}

pub record Frac : Type 0 where
  pub num : ℕ
  pub den : ℕ

pub record Signed : Type 0 where
  pub plus : ℕ
  pub minus : ℕ
  pub over : ℕ

abbrev pub of_ℕ : ℕ → Frac
of_ℕ n = record { num = n; den = 1 }

abbrev pub add : Frac → Frac → Frac
add a b = record { num = a.num * b.den + b.num * a.den; den = a.den * b.den }

-- a - b, for b no larger than a.
abbrev pub subtract : Frac → Frac → Frac
subtract a b = record { num = a.num * b.den - b.num * a.den; den = a.den * b.den }

abbrev pub mul : Frac → Frac → Frac
mul a b = record { num = a.num * b.num; den = a.den * b.den }

abbrev pub div : Frac → Frac → Frac
div a b = record { num = a.num * b.den; den = a.den * b.num }

-- a - b, with its sign.
abbrev pub difference : Frac → Frac → Signed
difference a b = record { plus = a.num * b.den; minus = b.num * a.den; over = a.den * b.den }

abbrev pub scale : Signed → Frac → Signed
scale s f = record { plus = s.plus * f.num; minus = s.minus * f.num; over = s.over * f.den }

-- `a <= b` and `a < b`
abbrev pub leb_frac : Frac → Frac → Bool
leb_frac a b = leb (a.num * b.den) (b.num * a.den)

abbrev pub ltb_frac : Frac → Frac → Bool
ltb_frac a b = ltb (a.num * b.den) (b.num * a.den)

abbrev pub add_signed : Signed → Signed → Signed
add_signed a b = record {
  plus = a.plus * b.over + b.plus * a.over;
  minus = a.minus * b.over + b.minus * a.over;
  over = a.over * b.over;
}

-- `f <= s`
abbrev pub leb_signed : Frac → Signed → Bool
leb_signed f s = leb (f.num * s.over + s.minus * f.den) (s.plus * f.den)

-- `a > 0`
abbrev pub is_pos : Frac → Bool
is_pos a = ltb 0 a.num

-- The same number.
infix 50 ◌≈◌
abbrev pub ◌≈◌ : Frac → Frac → Type 0
a ≈ b = a.num * b.den ≡ b.num * a.den

infix 50 ◌≤f◌
abbrev pub ◌≤f◌ : Frac → Frac → Type 0
a ≤f b = a.num * b.den ≤ b.num * a.den

pub mul_cancel : (k a b : ℕ) → 0 < k → k * a ≤ k * b → a ≤ b
mul_cancel k a b h p = grind arith

pub mul_mono : (k a b : ℕ) → a ≤ b → k * a ≤ k * b
mul_mono k a b h = grind arith

pub mul_cancel_eq : (k a b : ℕ) → 0 < k → k * a ≡ k * b → a ≡ b
mul_cancel_eq k a b h p =
    omega (arith, mul_cancel k a b h (omega arith), mul_cancel k b a h (omega arith))

pub mul_pos : (a b : ℕ) → 0 < a → 0 < b → 0 < a * b
mul_pos a b h k = grind arith
