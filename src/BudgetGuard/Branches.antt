-- ===== src/BudgetGuard/Branches.antt =====
-- `try_reserve` of runtime/core/budget_guard.py on every branch, and against `can_spend`.
use pecunator_accu_monetas.Prelude.{
  ℕ, ◌+◌, ◌*◌, ◌≤◌, ◌≡◌, ◌↔◌, ◌≢◌, refl, Bool, true, some, List, [], ◌∷◌, arith,
}
use pecunator_accu_monetas.BudgetGuard.{
  Guard, Side, hub_from_bot_id, hub_ceiling, spent_last_24h, spent_last_24h_by_hub, exceeds_global,
  exceeds_hub, can_spend, record_spend, try_reserve,
}

-- A reservation succeeds exactly if the database works and neither the global ceiling nor that of
-- the bot's hub is passed; it then adds one BUY row of its amount, and otherwise the ledger stays.
pub try_reserve_exact :
    (bot_id : List ℕ) (amount now : ℕ) (db_ok : Bool) (g : Guard)
    → let (g', result) = try_reserve bot_id amount now db_ok g in
      let hub = hub_from_bot_id bot_id in
      ((result ≡ some true) ↔ (
        (db_ok ≡ true)
        × (spent_last_24h now g.ledger + amount ≤ g.max_daily_spend)
        × ((spent_last_24h_by_hub hub now g.ledger + amount) * 100 ≤ hub_ceiling hub g)))
      × (result ≡ some true
          → g'.ledger
            ≡ record { at = now; bot_id = bot_id; side = Side.buy; amount = amount } ∷ g.ledger)
      × (result ≢ some true → g' ≡ g)
unfolding try_reserve record_spend exceeds_global exceeds_hub
try_reserve_exact bot_id amount now db_ok g = ground arith

-- For a bot that has an id, `can_spend` foretells `try_reserve` at the same reading.
pub can_spend-try_reserve :
    (bot_id : List ℕ) (amount now : ℕ) (g : Guard)
    → bot_id ≢ []
    → (try_reserve bot_id amount now true g).1 ≡ some (can_spend amount bot_id now g)
unfolding try_reserve can_spend
can_spend-try_reserve [] amount now g h = absurd (h refl)
can_spend-try_reserve (c ∷ cs) amount now g h = ground arith
