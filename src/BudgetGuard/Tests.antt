-- ===== src/BudgetGuard/Tests.antt =====
-- The budget of runtime/core/budget_guard.py with its default ceiling of 50 USDT, in cents.
use pecunator_accu_monetas.Prelude.{ℕ, ◌*◌, ◌≤◌, ◌≡◌, refl, true, List, [], ◌∷◌, arith}
use pecunator_accu_monetas.BudgetGuard.{
  Guard, Side, Hub, codes, default_ratio, hub_from_bot_id, hub_ceiling, spent_last_24h,
  spent_last_24h_by_hub, try_reserve, record_spend, has_prefix, is_prefix, hub_name, lower,
  exceeds_global, exceeds_hub,
}
use pecunator_accu_monetas.BudgetGuard.Ceiling.{Reservation, reserve_all, new, global_ceiling_holds}
use pecunator_accu_monetas.BudgetGuard.Hubs.{hub_ceiling_holds}

abbrev louise : List ℕ
louise = codes "Louise_BTC"

abbrev alpha : List ℕ
alpha = codes "alpha_BTC"

abbrev budget : Guard
budget = new 5000 default_ratio

abbrev reserve : ℕ → ℕ → Reservation
reserve amount at = record { bot_id = louise; amount = amount; at = at; db_ok = true }

-- The hub of Louise has 20 USDT: the second reservation is refused until a day has passed.
abbrev reservations : List Reservation
reservations = reserve 1500 10 ∷ reserve 600 20 ∷ reserve 600 86400011 ∷ []

reservations_run :
    (reserve_all reservations budget).ledger
    ≡ record { at = 86400011; bot_id = louise; side = Side.buy; amount = 600 }
      ∷ record { at = 10; bot_id = louise; side = Side.buy; amount = 1500 }
      ∷ []
unfolding reserve_all try_reserve record_spend exceeds_global exceeds_hub spent_last_24h
    spent_last_24h_by_hub hub_ceiling default_ratio hub_from_bot_id has_prefix is_prefix hub_name
    lower
reservations_run = refl

global_ceiling_holds_example :
    spent_last_24h 86400011 (reserve_all reservations budget).ledger ≤ 5000
global_ceiling_holds_example =
    global_ceiling_holds 5000 default_ratio reservations 86400011 (omega arith) (omega arith)

hub_ceiling_holds_example :
    spent_last_24h_by_hub Hub.louise 86400011 (reserve_all reservations budget).ledger * 100
    ≤ hub_ceiling Hub.louise budget
hub_ceiling_holds_example =
    hub_ceiling_holds 5000 default_ratio Hub.louise reservations 86400011 (λ e. cc) (omega arith)
      (omega arith)
