-- ===== src/WeightGovernor/Answers.antt =====
-- What `request_permission` of runtime/core/weight_governor.py answers.
use pecunator_accu_monetas.Prelude.{
  ℕ, ◌+◌, ◌-◌, ◌*◌, ◌≤◌, ◌<◌, ◌≡◌, ◌↔◌, Bool-cases, inl, inr, arith,
}
use pecunator_accu_monetas.Prelude.Int.{ℤ, pos, pos_part, ◌≤ℤ◌, leb_ℤ}
use pecunator_accu_monetas.WeightGovernor.{
  Governor, Fraction, Permission, pct, zone, pressure, throttle, permission_in, request_permission,
  update_weight, zone_of,
}

-- The wait is between 2 and 30 seconds.
abbrev pub WaitsInRange : Permission → Type 0
WaitsInRange (Permission.wait f) = (0 < f.den) × (2 * f.den < f.num) × (f.num ≤ 30 * f.den)
WaitsInRange _ = Unit

-- One answer lets a bot go no earlier than another.
abbrev pub NoStricter : Permission → Permission → Type 0
NoStricter Permission.proceed q = Unit
NoStricter (Permission.wait f) (Permission.wait g) = f.num * g.den ≤ g.num * f.den
NoStricter (Permission.wait f) Permission.block = Unit
NoStricter Permission.block Permission.block = Unit
NoStricter _ _ = ⊥

-- With a positive limit a bot proceeds at up to half of it, is blocked above four fifths of it,
-- and in between waits for more than 2 and at most 30 seconds. With no positive limit it proceeds.
pub request_permission_by_weight :
    (g : Governor)
    → ((request_permission g ≡ Permission.proceed)
        ↔ (pos 1 ≤ℤ g.weight_limit → g.current_weight * 2 ≤ pos_part g.weight_limit))
      × ((request_permission g ≡ Permission.block)
          ↔ ((pos 1 ≤ℤ g.weight_limit) × (pos_part g.weight_limit * 4 < g.current_weight * 5)))
      × WaitsInRange (request_permission g)
unfolding request_permission permission_in zone zone_of pct pressure throttle
request_permission_by_weight g = ground arith

scale_le : (a b d : ℕ) → a ≤ b → a * d ≤ b * d
scale_le a b d h = grind arith

-- Over one denominator the answer follows the numerator.
permission_in_mono :
    (a b d : ℕ)
    → a ≤ b
    → 0 < d
    → let f : Fraction = record { num = a; den = d } in
      let g : Fraction = record { num = b; den = d } in
      NoStricter (permission_in (zone_of f) f) (permission_in (zone_of g) g)
unfolding permission_in zone_of pressure throttle
permission_in_mono a b d h pos_d = ground (
  arith,
  scale_le (2 * (d * 100 * 30) + (a * 100 - d * 50) * 100 * 28)
      (2 * (d * 100 * 30) + (b * 100 - d * 50) * 100 * 28) (d * 100 * 30),
)

-- Under one limit, a larger reading never gives a laxer answer.
pub request_permission_mono :
    (g : Governor) (w w' : ℤ) (now now' : ℕ)
    → pos_part w ≤ pos_part w'
    → NoStricter
        (request_permission (update_weight w now g))
        (request_permission (update_weight w' now' g))
unfolding request_permission zone pct update_weight
request_permission_mono g w w' now now' h = elim (Bool-cases (leb_ℤ g.weight_limit (pos 0))) [
  | inl none_set ↦ rw none_set (permission_in_mono 0 0 1 (omega arith) (omega arith))
  | inr limited ↦
      rw limited
        (permission_in_mono (pos_part w) (pos_part w') (pos_part g.weight_limit) h (ground arith))
]
