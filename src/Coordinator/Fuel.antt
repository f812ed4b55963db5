-- ===== src/Coordinator/Fuel.antt =====
-- The loop over a bot's cycles in `_compute_optimal_delay` of runtime/core/bot_coordinator.py.
use pecunator_accu_monetas.Prelude.{◌/◌, ◌%◌, ℕ, zero, suc, ◌+◌, ◌≤◌, ◌<◌, ◌≡◌, refl, List, arith}
use pecunator_accu_monetas.Coordinator.Delay.{heat, mark_cycles, cycle_fuel}

mark_cycles_past :
    (fuel t interval w : ℕ) (hs : List ℕ) → 60000 ≤ t → mark_cycles fuel t interval w hs ≡ hs
unfolding mark_cycles
mark_cycles_past zero t interval w hs h = refl
mark_cycles_past (suc fuel) t interval w hs h = ground arith

mark_cycles_more :
    (fuel more t interval w : ℕ) (hs : List ℕ)
    → 0 < interval
    → 60000 ≤ t + fuel
    → mark_cycles (fuel + more) t interval w hs ≡ mark_cycles fuel t interval w hs
unfolding mark_cycles
mark_cycles_more zero more t interval w hs pos h =
    mark_cycles_past (0 + more) t interval w hs (omega arith)
mark_cycles_more (suc fuel) more t interval w hs pos h =
    let e : suc fuel + more ≡ suc (fuel + more) = omega arith in
    rw (e) (
      ground (
        arith,
        mark_cycles_more fuel more (t + interval) interval w (heat (t / 1000 % 60) w hs) pos
            (omega arith),
      ))

-- The loop that marks the cycles of a bot with an interval ends by its own test within the fuel that
-- it is given: more fuel changes nothing, whatever the first cycle is.
pub mark_cycles_ends :
    (more t interval w : ℕ) (hs : List ℕ)
    → 0 < interval
    → mark_cycles (cycle_fuel + more) t interval w hs ≡ mark_cycles cycle_fuel t interval w hs
mark_cycles_ends more t interval w hs pos =
    mark_cycles_more cycle_fuel more t interval w hs pos (omega arith)
