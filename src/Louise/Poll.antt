-- ===== src/Louise/Poll.antt =====
-- `poll_market` of runtime/bot/louise.py, in the order of its guards. Each stage hands the state on
-- to the next one or ends the cycle. The log lines and the message to the desktop are not modelled;
-- the cooldowns and `now` are whole seconds.
use pecunator_accu_monetas.Prelude.{
  ◌+◌, Bool, true, false, not, ◌||◌, ◌&&◌, none, some, ltb, if◌then◌else◌,
}
use pecunator_accu_monetas.Prelude.Dict.{lookup}
use pecunator_accu_monetas.Prelude.Frac.{
  Frac, Signed, of_ℕ, add, mul, div, difference, scale, is_pos, leb_frac, ltb_frac, leb_signed,
}
use pecunator_accu_monetas.BudgetGuard
use pecunator_accu_monetas.BudgetGuard.{codes}
use pecunator_accu_monetas.ExchangeFilters.{ensure_loaded}
use pecunator_accu_monetas.Fuse.Api
use pecunator_accu_monetas.Louise.Store.{
  Snapshot, no_profit, get_total_realized_pnl, record_pnl_snapshot, BotStatus, Epoch, EpochId,
  create_epoch, get_active_epoch,
}
use pecunator_accu_monetas.Louise.State.{Louise, World, Gate, Env}
use pecunator_accu_monetas.Louise.Orders.{cool_down, execute_buy, execute_sell}

-- A cycle returns, or an exception ends it, which the main loop logs.
pub data Outcome : Type 0 where
  returned raised : Outcome

abbrev pub is_live : BotStatus → Bool
is_live BotStatus.accumulating = true
is_live BotStatus.running = true
is_live _ = false

-- `(total_cost / avg_price) * current_price`
unfoldable pub current_value : Epoch → Frac → Frac
current_value e price = mul (div e.total_cost e.avg_buy_price) price

-- `current_value - total_cost`
unfoldable pub profit_usdt : Epoch → Frac → Signed
profit_usdt e price = difference (current_value e price) e.total_cost

-- `(profit_usdt / total_cost) * 100`
unfoldable pub profit_pct : Epoch → Frac → Signed
profit_pct e price = scale (scale (profit_usdt e price) (div (of_ℕ 1) e.total_cost)) (of_ℕ 100)

-- The last checks of a buy, once the budget is reserved.
unfoldable pub buy_stage : Env → Epoch → World → World × Outcome
buy_stage env e w =
    let config = w.louise.config in
    let buy = of_ℕ config.buy_volume in
    if ltb_frac (of_ℕ config.daily_budget) (add e.total_cost buy)
    then (w, Outcome.returned)
    else if ltb_frac w.louise.usdt_free_balance buy
    then (w, Outcome.returned)
    else elim (lookup config.symbol w.filters) [
      | none ↦ (execute_buy env e config.buy_volume w, Outcome.returned)
      | some f ↦
          if ltb_frac buy f.min_notional
          then (cool_down (env.now + env.cooldown_buy_fail_sec) w, Outcome.returned)
          else (execute_buy env e config.buy_volume w, Outcome.returned)
    ]

-- The budget guard; `none` is its exception.
unfoldable pub reserve_stage : Env → Epoch → World → World × Outcome
reserve_stage env e w =
    let (guard, reserved) =
      BudgetGuard.try_reserve (codes w.louise.bot_id) w.louise.config.buy_volume env.guard_now
        env.guard_db_ok w.guard in
    elim reserved [
      | none ↦ (record w { guard = guard }, Outcome.raised)
      | some true ↦ buy_stage env e (record w { guard = guard })
      | some false ↦ (record w { guard = guard }, Outcome.returned)
    ]

-- The snapshot for the chart.
unfoldable pub chart_stage : Env → Epoch → World → World
chart_stage env e w =
    let price = w.louise.current_price in
    let snapshot : Snapshot = record {
      bot_id = w.louise.bot_id;
      epoch_id = e.epoch_id;
      snapshot_at = env.now;
      current_price = price;
      avg_entry_price_usdt = e.avg_buy_price;
      num_entries = e.num_purchases;
      total_committed_usdt = e.total_cost;
      unrealized_pnl_usdt = profit_usdt e price;
      unrealized_pnl_pct = profit_pct e price;
      cumulative_realized_pnl_usdt = get_total_realized_pnl w.louise.bot_id w.db;
      net_position_usdt = no_profit;
      net_position_pct = no_profit;
    } in
    record w { db = record_pnl_snapshot snapshot w.db }

-- The exit condition of an epoch with purchases, and the rule to buy lower only. A division by a
-- zero price or cost raises.
unfoldable pub exit_stage : Env → Epoch → World → World × Outcome
exit_stage env e w =
    let price = w.louise.current_price in
    let w' = chart_stage env e w in
    if not (is_pos e.avg_buy_price) || not (is_pos e.total_cost)
    then (w, Outcome.raised)
    else if leb_signed w.louise.config.target_profit_pct (profit_pct e price)
    then (execute_sell env e (profit_usdt e price) w', Outcome.returned)
    else if leb_frac w.louise.last_purchase_price price
    then (w', Outcome.returned)
    else reserve_stage env e w'

unfoldable pub epoch_stage : Env → Epoch → World → World × Outcome
epoch_stage env e w = if ltb 0 e.num_purchases then exit_stage env e w else reserve_stage env e w

-- A new epoch, where there is none.
unfoldable pub create_stage : Env → World → World × Outcome
create_stage env w =
    let id : EpochId = record { bot_id = w.louise.bot_id; at = env.now } in
    elim (create_epoch id env.now w.db) [
      | none ↦ (w, Outcome.raised)
      | some db ↦
          let active = get_active_epoch w.louise.bot_id db in
          let w' : World = record w {
            db = db;
            louise = record (w.louise) { active_epoch = active };
          } in
          elim active [ none ↦ (w', Outcome.raised) | some e ↦ epoch_stage env e w' ]
    ]

unfoldable pub active_stage : Env → World → World × Outcome
active_stage env w = elim (w.louise.active_epoch) [
  | none ↦ create_stage env w
  | some e ↦ epoch_stage env e w
]

-- The API fuse, and the governor: a call of a method that is missing raises.
unfoldable pub gate_stage : Env → World → World × Outcome
gate_stage env w =
    let (fuses, blocked) = Api.is_tripped env.mono env.mono' w.fuses in
    let w' : World = record w { fuses = fuses } in
    if blocked then (w', Outcome.returned) else elim env.gate [
      | Gate.missing ↦ (w', Outcome.raised)
      | Gate.answers true ↦ active_stage env w'
      | Gate.answers false ↦ (w', Outcome.returned)
    ]

-- `not (self.current_price <= 0 or now - self.last_price_timestamp > staleness_sec)`
unfoldable pub is_fresh : Env → Louise → Bool
is_fresh env l =
    is_pos l.current_price && not (ltb (l.last_price_timestamp + env.price_staleness_sec) env.now)

-- The filters, the price feed and the balance.
unfoldable pub market_stage : Env → World → World × Outcome
market_stage env w =
    let symbol = w.louise.config.symbol in
    let w' : World =
      if env.has_client
      then record w { filters = (ensure_loaded symbol env.symbol_info w.filters).0 }
      else w in
    if not (is_fresh env w'.louise)
    then (w', Outcome.returned)
    else if ltb_frac w'.louise.usdt_free_balance (of_ℕ env.min_usdt_balance)
    then (w', Outcome.returned)
    else gate_stage env w'

-- `poll_market`
unfoldable pub poll_market : Env → World → World × Outcome
poll_market env w =
    if not (is_live w.louise.config.status)
    then (w, Outcome.returned)
    else if ltb env.now w.louise.cooldown_until
    then (w, Outcome.returned)
    else market_stage env w
