-- ===== src/BudgetGuard/Other.antt =====
-- The hub "other" of runtime/core/budget_guard.py: a bot of no named hub falls into it by
-- `_hub_from_bot_id`, but its spends are looked up under ids that begin with "other".
use pecunator_accu_monetas.Prelude.{ℕ, zero, suc, ◌*◌, ◌≤◌, ◌≡◌, refl, true, false, List, [], arith}
use pecunator_accu_monetas.BudgetGuard.{
  Guard, Hub, hub_from_bot_id, hub_ceiling, spent_last_24h, spent_last_24h_by_hub, exceeds_global,
  exceeds_hub, record_spend, try_reserve, has_prefix,
}
use pecunator_accu_monetas.BudgetGuard.Ceiling.{new}

-- A number of equal reservations by one bot at one reading.
unfoldable pub reserve_times : ℕ → List ℕ → ℕ → ℕ → Guard → Guard
reserve_times zero bot_id amount now g = g
reserve_times (suc n) bot_id amount now g =
    (try_reserve bot_id amount now true (reserve_times n bot_id amount now g)).0

-- What the reservations leave, if each succeeds.
record IsAccepted (n : ℕ) (amount now : ℕ) (g g' : Guard) : Type 0 where
  settings : (g'.max_daily_spend ≡ g.max_daily_spend) × (g'.ratio ≡ g.ratio)
  spent : spent_last_24h now g'.ledger ≡ n * amount
  unseen : spent_last_24h_by_hub Hub.other now g'.ledger ≡ 0

reserve_once :
    (n : ℕ) (bot_id : List ℕ) (amount now : ℕ) (g g' : Guard)
    → hub_from_bot_id bot_id ≡ Hub.other
    → has_prefix Hub.other bot_id ≡ false
    → amount * 100 ≤ hub_ceiling Hub.other g
    → suc n * amount ≤ g.max_daily_spend
    → IsAccepted n amount now g g'
    → IsAccepted (suc n) amount now g (try_reserve bot_id amount now true g').0
unfolding try_reserve exceeds_global exceeds_hub record_spend spent_last_24h spent_last_24h_by_hub
    hub_ceiling
reserve_once n bot_id amount now g g' is_other hidden small fits h = ground arith

reserve_times-IsAccepted :
    (n : ℕ) (bot_id : List ℕ) (amount now : ℕ) (g : Guard)
    → hub_from_bot_id bot_id ≡ Hub.other
    → has_prefix Hub.other bot_id ≡ false
    → amount * 100 ≤ hub_ceiling Hub.other g
    → n * amount ≤ g.max_daily_spend
    → g.ledger ≡ []
    → IsAccepted n amount now g (reserve_times n bot_id amount now g)
unfolding reserve_times spent_last_24h spent_last_24h_by_hub
reserve_times-IsAccepted zero bot_id amount now g is_other hidden small fits e = ground arith
reserve_times-IsAccepted (suc n) bot_id amount now g is_other hidden small fits e =
    reserve_once n bot_id amount now g (reserve_times n bot_id amount now g) is_other hidden small
      fits (reserve_times-IsAccepted n bot_id amount now g is_other hidden small (omega arith) e)

-- A bot of no named hub, whose id does not begin with "other", can reserve again and again: each
-- amount that is alone within the ceiling of the hub "other" is accepted until the global ceiling
-- is reached, so that hub's ceiling does not bound their sum.
pub other_hub_unbounded :
    (max_daily_spend : ℕ) (ratio : Hub → ℕ) (n : ℕ) (bot_id : List ℕ) (amount now : ℕ)
    → hub_from_bot_id bot_id ≡ Hub.other
    → has_prefix Hub.other bot_id ≡ false
    → amount * 100 ≤ max_daily_spend * ratio Hub.other
    → n * amount ≤ max_daily_spend
    → spent_last_24h now (reserve_times n bot_id amount now (new max_daily_spend ratio)).ledger
      ≡ n * amount
other_hub_unbounded max_daily_spend ratio n bot_id amount now is_other hidden small fits =
    (reserve_times-IsAccepted n bot_id amount now (new max_daily_spend ratio) is_other hidden
      (unfold hub_ceiling in small) fits refl).spent
