-- ===== src/Symmetry/Balance.antt =====
-- The targets and the transfers of runtime/core/symmetry_guard.py.
use pecunator_accu_monetas.Prelude.{ℕ, ◌+◌, ◌-◌, ◌*◌, ◌≤◌, ◌≡◌, ◌⊎◌, Bool, true, false, some, arith}
use pecunator_accu_monetas.Symmetry.Capital.{
  Trend, Action, min_reserve, raw_shares, with_floors, compute_allocation, move, rebalance,
}

-- The targets of a capital of a whole number of units that is at least twice the reserve: they add up
-- to the capital, and each is at least the reserve.
pub compute_allocation_splits :
    (units : ℕ) (trend : Trend)
    → min_reserve * 2 ≤ 4 * units
    → let a = compute_allocation (4 * units) trend in
      (a.cleared ≡ true)
      × (a.spot_target + a.margin_target ≡ 4 * units)
      × (min_reserve ≤ a.spot_target)
      × (min_reserve ≤ a.margin_target)
unfolding compute_allocation raw_shares with_floors
compute_allocation_splits units Trend.bullish h = ground arith
compute_allocation_splits units Trend.bearish h = ground arith
compute_allocation_splits units Trend.neutral h = ground arith

-- What a transfer does to the wallets.
abbrev pub spot_after : Action → ℕ → ℕ
spot_after (Action.spot_to_margin amount) spot = spot - amount
spot_after (Action.margin_to_spot amount) spot = spot + amount
spot_after _ spot = spot

abbrev pub margin_after : Action → ℕ → ℕ
margin_after (Action.spot_to_margin amount) margin = margin + amount
margin_after (Action.margin_to_spot amount) margin = margin - amount
margin_after _ margin = margin

abbrev pub is_transfer : Action → Bool
is_transfer (Action.spot_to_margin amount) = true
is_transfer (Action.margin_to_spot amount) = true
is_transfer _ = false

-- A transfer keeps the sum of the wallets, leaves at least the reserve in the wallet it takes from,
-- and brings neither wallet past its target.
pub rebalance_keeps :
    (accepts : Bool) (spot margin : ℕ) (trend : Trend)
    → let action = rebalance accepts (some spot) (some margin) trend in
      let a = compute_allocation (spot + margin) trend in
      is_transfer action ≡ true
      → (spot_after action spot + margin_after action margin ≡ spot + margin)
        × (((a.spot_target ≤ spot_after action spot)
              × (margin_after action margin ≤ a.margin_target)
              × (min_reserve ≤ spot_after action spot))
            ⊎ ((a.margin_target ≤ margin_after action margin)
                × (spot_after action spot ≤ a.spot_target)
                × (min_reserve ≤ margin_after action margin)))
unfolding rebalance move
rebalance_keeps accepts spot margin trend h = ground arith
