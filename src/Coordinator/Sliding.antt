-- ===== src/Coordinator/Sliding.antt =====
-- `compute_jitter` of runtime/core/bot_coordinator.py.
use Prim.Native.String.{String}
use pecunator_accu_monetas.Prelude.{ℕ, ◌*◌, ◌≤◌, ◌<◌, ◌≡◌, ◌↔◌, true, some, arith}
use pecunator_accu_monetas.Prelude.Dict.{lookup}
use pecunator_accu_monetas.Prelude.Frac.{of_ℕ, leb_frac, is_pos, mul_pos}
use pecunator_accu_monetas.Coordinator.State.{
  ActiveBot, Coordinator, next_cycle, collisions, jitter_of, compute_jitter,
}

jitter_of_bounds :
    (count : ℕ) (c : Coordinator)
    → 0 < count
    → 0 < c.current_weight
    → 0 < c.weight_limit
    → (leb_frac (jitter_of count c) (of_ℕ 10) ≡ true) × (is_pos (jitter_of count c) ≡ true)
unfolding jitter_of
jitter_of_bounds count c h k pos =
    let scaled = mul_pos (count * 2) (c.current_weight * 100) (omega arith) (omega arith) in
    ground arith

-- The delay that is added to the sleep of an active bot is at most 10 seconds. It is positive exactly
-- if the used weight is at least 70 % of a positive limit and the next cycle of some other bot is
-- less than 5 seconds away from the bot's own.
pub compute_jitter_exact :
    (bot_id : String) (bot : ActiveBot) (c : Coordinator)
    → lookup bot_id c.active ≡ some bot
    → 0 < c.weight_limit
    → let jitter = compute_jitter bot_id c in
      (leb_frac jitter (of_ℕ 10) ≡ true)
      × ((is_pos jitter ≡ true) ↔ (
          (70 * c.weight_limit ≤ c.current_weight * 100)
          × (0 < collisions bot_id (next_cycle bot) c.active)))
unfolding compute_jitter
compute_jitter_exact bot_id bot c h pos =
    let count = collisions bot_id (next_cycle bot) c.active in
    let bounds = jitter_of_bounds count c in rw (h, compute_jitter) (ground arith)
