-- ===== src/BudgetGuard/Ceiling.antt =====
-- The ceilings of runtime/core/budget_guard.py over any sequence of reservations.
use pecunator_accu_monetas.Prelude.{ℕ, ◌+◌, ◌*◌, ◌≤◌, ◌≡◌, refl, Bool, List, [], ◌∷◌, arith}
use pecunator_accu_monetas.BudgetGuard.{
  Guard, Row, Side, Hub, hub_ceiling, spent_last_24h, spent_last_24h_by_hub, exceeds_global,
  record_spend, try_reserve,
}

-- The arguments of a call of `try_reserve`.
pub record Reservation : Type 0 where
  pub bot_id : List ℕ
  pub amount : ℕ
  pub at : ℕ
  pub db_ok : Bool

unfoldable pub reserve_all : List Reservation → Guard → Guard
reserve_all [] g = g
reserve_all (r ∷ rs) g = reserve_all rs (try_reserve r.bot_id r.amount r.at r.db_ok g).0

abbrev pub InOrder : ℕ → List Reservation → Type 0
InOrder last [] = Unit
InOrder last (r ∷ rs) = (last ≤ r.at) × InOrder r.at rs

abbrev pub last_reading : ℕ → List Reservation → ℕ
last_reading last [] = last
last_reading last (r ∷ rs) = last_reading r.at rs

-- Later, less of a ledger counts.
spent_mono : (now t : ℕ) (l : List Row) → now ≤ t → spent_last_24h t l ≤ spent_last_24h now l
unfolding spent_last_24h
spent_mono now t [] h = omega arith
spent_mono now t (r ∷ l) h = ground (arith, spent_mono now t l h)

pub spent_by_hub_mono :
    (hub : Hub) (now t : ℕ) (l : List Row)
    → now ≤ t
    → spent_last_24h_by_hub hub t l ≤ spent_last_24h_by_hub hub now l
unfolding spent_last_24h_by_hub
spent_by_hub_mono hub now t [] h = omega arith
spent_by_hub_mono hub now t (r ∷ l) h = ground (arith, spent_by_hub_mono hub now t l h)

-- Every 24 hours that end at `last` or later stay within the ceilings.
abbrev pub IsWithin : ℕ → Guard → Type 0
IsWithin last g = (t : ℕ) → last ≤ t → spent_last_24h t g.ledger ≤ g.max_daily_spend

abbrev pub IsWithinHub : Hub → ℕ → Guard → Type 0
IsWithinHub hub last g =
    (t : ℕ) → last ≤ t → spent_last_24h_by_hub hub t g.ledger * 100 ≤ hub_ceiling hub g

spent-cons :
    (r : Row) (t : ℕ) (l : List Row) → spent_last_24h t (r ∷ l) ≤ spent_last_24h t l + r.amount
unfolding spent_last_24h
spent-cons r t l = ground arith

try_reserve-IsWithin :
    (last : ℕ) (r : Reservation) (g : Guard)
    → last ≤ r.at
    → IsWithin last g
    → IsWithin r.at (try_reserve r.bot_id r.amount r.at r.db_ok g).0
unfolding try_reserve exceeds_global record_spend
try_reserve-IsWithin last r g order h t later = ground (
  arith,
  h t,
  spent_mono r.at t g.ledger later,
  spent-cons (record { at = r.at; bot_id = r.bot_id; side = Side.buy; amount = r.amount }) t
      g.ledger,
)

reserve_all-IsWithin :
    (last : ℕ) (rs : List Reservation) (g : Guard)
    → InOrder last rs
    → IsWithin last g
    → IsWithin (last_reading last rs) (reserve_all rs g)
unfolding reserve_all
reserve_all-IsWithin last [] g order h = h
reserve_all-IsWithin last (r ∷ rs) g order h =
    reserve_all-IsWithin r.at rs _ order.1 (try_reserve-IsWithin last r g order.0 h)

pub reserve_all-settings :
    (rs : List Reservation) (g : Guard)
    → ((reserve_all rs g).max_daily_spend ≡ g.max_daily_spend)
      × ((reserve_all rs g).ratio ≡ g.ratio)
unfolding reserve_all try_reserve record_spend
reserve_all-settings [] g = (refl, refl)
reserve_all-settings (r ∷ rs) g =
    ground (arith, reserve_all-settings rs (try_reserve r.bot_id r.amount r.at r.db_ok g).0)

-- A guard with an empty ledger.
abbrev pub new : ℕ → (Hub → ℕ) → Guard
new max_daily_spend ratio = record { max_daily_spend = max_daily_spend; ratio = ratio; ledger = [] }

-- Whatever bots reserve, by whatever amounts, at the readings of one clock, and whichever of the
-- calls the database fails, the BUY spends of the 24 hours before any reading after the last call
-- are within the global ceiling.
pub global_ceiling_holds :
    (max_daily_spend : ℕ) (ratio : Hub → ℕ) (rs : List Reservation) (t : ℕ)
    → InOrder 0 rs
    → last_reading 0 rs ≤ t
    → spent_last_24h t (reserve_all rs (new max_daily_spend ratio)).ledger ≤ max_daily_spend
unfolding spent_last_24h
global_ceiling_holds max_daily_spend ratio rs t order later =
    let g = new max_daily_spend ratio in
    omega (
      arith,
      (reserve_all-settings rs g).0,
      reserve_all-IsWithin 0 rs g order (λ u hu. omega arith) t later,
    )
