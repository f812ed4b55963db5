-- ===== src/BudgetGuard/Hubs.antt =====
-- The ceilings of the named hubs of runtime/core/budget_guard.py over any sequence of reservations.
use pecunator_accu_monetas.Prelude.{
  ℕ, ◌+◌, ◌*◌, ◌≤◌, ◌≡◌, ◌≢◌, refl, true, List, [], ◌∷◌, arith, if◌then◌else◌,
}
use pecunator_accu_monetas.BudgetGuard.{
  Guard, Row, Side, Hub, hub_from_bot_id, hub_ceiling, spent_last_24h_by_hub, exceeds_hub,
  record_spend, try_reserve, has_prefix, hub_name, is_prefix,
}
use pecunator_accu_monetas.BudgetGuard.Ceiling.{
  Reservation, reserve_all, InOrder, last_reading, IsWithinHub, spent_by_hub_mono,
  reserve_all-settings, new,
}

-- An id with the prefix of a named hub is of that hub.
hub_from_bot_id-has_prefix :
    (hub : Hub) (bot_id : List ℕ)
    → hub ≢ Hub.other
    → has_prefix hub bot_id ≡ true
    → hub_from_bot_id bot_id ≡ hub
unfolding hub_from_bot_id has_prefix hub_name is_prefix
hub_from_bot_id-has_prefix Hub.dorothy bot_id h p = rw p
hub_from_bot_id-has_prefix Hub.elphaba [] h p = cc
hub_from_bot_id-has_prefix Hub.elphaba (c ∷ cs) h p = ground arith
hub_from_bot_id-has_prefix Hub.louise [] h p = cc
hub_from_bot_id-has_prefix Hub.louise (c ∷ cs) h p = ground arith
hub_from_bot_id-has_prefix Hub.other bot_id h p = absurd (h refl)

pub spent_by_hub-cons :
    (hub : Hub) (r : Row) (t : ℕ) (l : List Row)
    → spent_last_24h_by_hub hub t (r ∷ l)
      ≤ spent_last_24h_by_hub hub t l + (if has_prefix hub r.bot_id then r.amount else 0)
unfolding spent_last_24h_by_hub
spent_by_hub-cons hub r t l = ground arith

try_reserve-IsWithinHub :
    (hub : Hub) (last : ℕ) (r : Reservation) (g : Guard)
    → hub ≢ Hub.other
    → last ≤ r.at
    → IsWithinHub hub last g
    → IsWithinHub hub r.at (try_reserve r.bot_id r.amount r.at r.db_ok g).0
unfolding try_reserve exceeds_hub record_spend hub_ceiling
try_reserve-IsWithinHub hub last r g named order h t later = ground (
  arith,
  h t,
  spent_by_hub_mono hub r.at t g.ledger later,
  hub_from_bot_id-has_prefix hub r.bot_id named,
  spent_by_hub-cons hub
      (record { at = r.at; bot_id = r.bot_id; side = Side.buy; amount = r.amount }) t g.ledger,
)

reserve_all-IsWithinHub :
    (hub : Hub) (last : ℕ) (rs : List Reservation) (g : Guard)
    → hub ≢ Hub.other
    → InOrder last rs
    → IsWithinHub hub last g
    → IsWithinHub hub (last_reading last rs) (reserve_all rs g)
unfolding reserve_all
reserve_all-IsWithinHub hub last [] g named order h = h
reserve_all-IsWithinHub hub last (r ∷ rs) g named order h =
    reserve_all-IsWithinHub hub r.at rs _ named order.1
      (try_reserve-IsWithinHub hub last r g named order.0 h)

hub_ceiling-reserve_all :
    (hub : Hub) (rs : List Reservation) (g : Guard)
    → hub_ceiling hub (reserve_all rs g) ≡ hub_ceiling hub g
unfolding hub_ceiling
hub_ceiling-reserve_all hub rs g = rw ((reserve_all-settings rs g).0, (reserve_all-settings rs g).1)

-- Whatever bots reserve, at the readings of one clock, the spends of the bots of each named hub are within the hub's ceiling.
pub hub_ceiling_holds :
    (max_daily_spend : ℕ) (ratio : Hub → ℕ) (hub : Hub) (rs : List Reservation) (t : ℕ)
    → hub ≢ Hub.other
    → InOrder 0 rs
    → last_reading 0 rs ≤ t
    → spent_last_24h_by_hub hub t (reserve_all rs (new max_daily_spend ratio)).ledger * 100
      ≤ hub_ceiling hub (new max_daily_spend ratio)
unfolding spent_last_24h_by_hub
hub_ceiling_holds max_daily_spend ratio hub rs t named order later =
    let g = new max_daily_spend ratio in
    omega (
      arith,
      hub_ceiling-reserve_all hub rs g,
      reserve_all-IsWithinHub hub 0 rs g named order (λ u hu. omega arith) t later,
    )
