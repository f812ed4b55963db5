-- ===== src/Symmetry/Capital.antt =====
-- `compute_allocation` and `rebalance` of runtime/core/symmetry_guard.py. Amounts are whole numbers of
-- a quarter of the smallest unit of USDT, so that three quarters and a half of an amount are whole;
-- `usdt` is the number of them in one USDT. The client's answers are arguments, `none` for a call
-- that raises.
use pecunator_accu_monetas.Prelude.{
  ℕ, ◌+◌, ◌-◌, ◌*◌, ◌/◌, max, min, Bool, true, false, ◌&&◌, Option, none, some, ltb, if◌then◌else◌,
  get_or,
}

pub data Trend : Type 0 where
  bullish bearish neutral : Trend

abbrev pub usdt : ℕ
usdt = 400000000

abbrev pub min_reserve : ℕ
min_reserve = 18 * usdt

pub record Allocation : Type 0 where
  pub cleared : Bool
  pub spot_target : ℕ
  pub margin_target : ℕ

-- The shares of a capital before the floors, for a capital of a whole number of units.
unfoldable pub raw_shares : ℕ → Trend → ℕ × ℕ
raw_shares total Trend.bullish = (total * 3 / 4, total / 4)
raw_shares total Trend.bearish = (total / 4, total * 3 / 4)
raw_shares total Trend.neutral = (total / 2, total / 2)

-- The floors, and the halves where they do not fit.
unfoldable pub with_floors : ℕ → ℕ → ℕ → Allocation
with_floors total spot margin =
    let spot_target = max spot min_reserve in
    let margin_target = max margin min_reserve in
    if ltb total (spot_target + margin_target)
    then record { cleared = true; spot_target = total / 2; margin_target = total / 2 }
    else record { cleared = true; spot_target = spot_target; margin_target = margin_target }

-- `compute_allocation`
unfoldable pub compute_allocation : ℕ → Trend → Allocation
compute_allocation total trend =
    let (spot, margin) = raw_shares total trend in
    if ltb total (min_reserve * 2)
    then record { cleared = false; spot_target = total / 2; margin_target = total / 2 }
    else with_floors total spot margin

pub data Action : Type 0 where
  query_failed capital_insufficient no_transfer_needed already_balanced transfer_failed : Action
  spot_to_margin : ℕ → Action
  margin_to_spot : ℕ → Action

-- A transfer of more than one USDT, if the client accepts it.
abbrev pub transfer : Bool → Action → ℕ → Action
transfer accepts action amount =
    if ltb usdt amount
    then (if accepts then action else Action.transfer_failed)
    else Action.no_transfer_needed

-- The direction and the amount of a transfer.
unfoldable pub move : Bool → ℕ → ℕ → Allocation → Action
move accepts spot margin a =
    let to_margin =
      min (min (spot - a.spot_target) (a.margin_target - margin)) (spot - min_reserve) in
    let to_spot =
      min (min (margin - a.margin_target) (a.spot_target - spot)) (margin - min_reserve) in
    if ltb a.spot_target spot && ltb margin a.margin_target
    then transfer accepts (Action.spot_to_margin to_margin) to_margin
    else if ltb a.margin_target margin && ltb spot a.spot_target
    then transfer accepts (Action.margin_to_spot to_spot) to_spot
    else Action.already_balanced

-- `rebalance`, over the free amounts of the two wallets; a margin wallet that cannot be read is empty.
unfoldable pub rebalance : Bool → Option ℕ → Option ℕ → Trend → Action
rebalance accepts none margin trend = Action.query_failed
rebalance accepts (some spot) margin trend =
    let free = get_or margin 0 in
    let total = spot + free in
    if ltb total (min_reserve * 2)
    then Action.capital_insufficient
    else move accepts spot free (compute_allocation total trend)
