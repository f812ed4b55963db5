-- ===== src/Louise/Blocked.antt =====
-- What a poll of runtime/bot/louise.py does when the governor has no method `can_execute`: the
-- class of runtime/core/api_governor.py declares none.
use pecunator_accu_monetas.Prelude.{◌≡◌, arith}
use pecunator_accu_monetas.Louise.State.{World, Gate, Env}
use pecunator_accu_monetas.Louise.Poll.{poll_market, market_stage, gate_stage}

-- Without that method no poll sends an order, reserves budget, or changes the store, the bot or the
-- pending orders.
pub poll_market_blocked :
    (env : Env) (w : World)
    → env.gate ≡ Gate.missing
    → let (w', outcome) = poll_market env w in
      (w'.orders ≡ w.orders) × (w'.db ≡ w.db) × (w'.guard ≡ w.guard) × (w'.louise ≡ w.louise)
unfolding poll_market market_stage gate_stage
poll_market_blocked env w h = ground arith
