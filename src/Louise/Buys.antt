-- ===== src/Louise/Buys.antt =====
-- When a poll of runtime/bot/louise.py sends an order.
use pecunator_accu_monetas.Prelude.{◌≤◌, ◌<◌, ◌≡◌, ◌⊎◌, Bool, true, false, some, ◌∷◌, arith}
use pecunator_accu_monetas.Prelude.Frac.{Frac, Signed, of_ℕ, add, leb_frac, ltb_frac, leb_signed}
use pecunator_accu_monetas.BudgetGuard
use pecunator_accu_monetas.BudgetGuard.{codes}
use pecunator_accu_monetas.Fuse.Api
use pecunator_accu_monetas.Louise.Store.{Epoch}
use pecunator_accu_monetas.ExchangeFilters.{ensure_loaded}
use pecunator_accu_monetas.Louise.State.{World, Gate, Env, Order}
use pecunator_accu_monetas.Louise.Orders.{execute_buy, execute_sell, send_sell}
use pecunator_accu_monetas.Louise.Poll.{
  poll_market, chart_stage, market_stage, gate_stage, active_stage, epoch_stage, exit_stage,
  reserve_stage, buy_stage, is_live, is_fresh, profit_pct, profit_usdt,
}

-- The market and the engine let the bot act: it is live and past its cooldown, its price is
-- positive and fresh, its balance is enough, the fuse is not blown and the governor agrees.
pub record MayAct (env : Env) (w : World) : Type 0 where
  pub live : is_live w.louise.config.status ≡ true
  pub past_cooldown : w.louise.cooldown_until ≤ env.now
  pub fresh : is_fresh env w.louise ≡ true
  pub funded : ltb_frac w.louise.usdt_free_balance (of_ℕ env.min_usdt_balance) ≡ false
  pub not_tripped : (Api.is_tripped env.mono env.mono' w.fuses).1 ≡ false
  pub allowed : env.gate ≡ Gate.answers true

-- A buy on an epoch: its amount is reserved, keeps the epoch within the daily budget, is covered by
-- the balance and, after the first purchase, is cheaper than the last one.
pub record MayBuy (env : Env) (w : World) (e : Epoch) : Type 0 where
  pub reserved :
      (BudgetGuard.try_reserve
        (codes w.louise.bot_id)
        w.louise.config.buy_volume
        env.guard_now
        env.guard_db_ok
        w.guard).1
      ≡ some true
  pub in_budget :
      ltb_frac
        (of_ℕ w.louise.config.daily_budget)
        (add e.total_cost (of_ℕ w.louise.config.buy_volume))
      ≡ false
  pub covered : ltb_frac w.louise.usdt_free_balance (of_ℕ w.louise.config.buy_volume) ≡ false
  pub cheaper :
      (e.num_purchases ≡ 0) ⊎ (leb_frac w.louise.last_purchase_price w.louise.current_price ≡ false)

abbrev pub Bought : World → World → Type 0
Bought w w' = w'.orders ≡ Order.market_buy w.louise.config.buy_volume ∷ w.orders

abbrev pub Sold : World → World → Type 0
Sold w w' = (qty : Frac) × (w'.orders ≡ Order.market_sell qty ∷ w.orders)

abbrev pub target_reached : World → Epoch → Bool
target_reached w e =
    leb_signed w.louise.config.target_profit_pct (profit_pct e w.louise.current_price)

buy_stage-orders :
    (env : Env) (e : Epoch) (w : World)
    → let w' = (buy_stage env e w).0 in
      let buy = of_ℕ w.louise.config.buy_volume in
      (w'.orders ≡ w.orders)
      ⊎ (Bought w w'
          × (ltb_frac (of_ℕ w.louise.config.daily_budget) (add e.total_cost buy) ≡ false)
          × (ltb_frac w.louise.usdt_free_balance buy ≡ false))
unfolding buy_stage execute_buy
buy_stage-orders env e w = ground arith

reserve_stage-orders :
    (env : Env) (e : Epoch) (w : World)
    → (e.num_purchases ≡ 0) ⊎ (leb_frac w.louise.last_purchase_price w.louise.current_price ≡ false)
    → let w' = (reserve_stage env e w).0 in (w'.orders ≡ w.orders) ⊎ (Bought w w' × MayBuy env w e)
unfolding reserve_stage
reserve_stage-orders env e w h =
    let guard =
      (BudgetGuard.try_reserve (codes w.louise.bot_id) w.louise.config.buy_volume env.guard_now
        env.guard_db_ok w.guard).0 in
    let bought = buy_stage-orders env e (record w { guard = guard }) in ground arith

execute_sell-orders :
    (env : Env) (e : Epoch) (profit : Signed) (w : World)
    → let w' = execute_sell env e profit w in (w'.orders ≡ w.orders) ⊎ Sold w w'
unfolding execute_sell send_sell
execute_sell-orders env e profit w = ground arith

exit_stage-orders :
    (env : Env) (e : Epoch) (w : World)
    → let w' = (exit_stage env e w).0 in
      (w'.orders ≡ w.orders)
      ⊎ (Bought w w' × MayBuy env w e)
      ⊎ (Sold w w' × (target_reached w e ≡ true))
unfolding exit_stage chart_stage
exit_stage-orders env e w =
    let bought = reserve_stage-orders env e (chart_stage env e w) in
    let sold =
      execute_sell-orders env e (profit_usdt e w.louise.current_price) (chart_stage env e w) in
    ground arith

epoch_stage-orders :
    (env : Env) (e : Epoch) (w : World)
    → let w' = (epoch_stage env e w).0 in
      (w'.orders ≡ w.orders)
      ⊎ (Bought w w' × MayBuy env w e)
      ⊎ (Sold w w' × (target_reached w e ≡ true) × (0 < e.num_purchases))
unfolding epoch_stage
epoch_stage-orders env e w = ground (arith, reserve_stage-orders env e w, exit_stage-orders env e w)

active_stage-orders :
    (env : Env) (e : Epoch) (w : World)
    → w.louise.active_epoch ≡ some e
    → let w' = (active_stage env w).0 in
      (w'.orders ≡ w.orders)
      ⊎ (Bought w w' × MayBuy env w e)
      ⊎ (Sold w w' × (target_reached w e ≡ true) × (0 < e.num_purchases))
unfolding active_stage
active_stage-orders env e w h = let sent = epoch_stage-orders env e w in ground arith

gate_stage-orders :
    (env : Env) (e : Epoch) (w : World)
    → w.louise.active_epoch ≡ some e
    → let w' = (gate_stage env w).0 in
      (w'.orders ≡ w.orders)
      ⊎ (((Bought w w' × MayBuy env w e)
            ⊎ (Sold w w' × (target_reached w e ≡ true) × (0 < e.num_purchases)))
          × (env.gate ≡ Gate.answers true)
          × ((Api.is_tripped env.mono env.mono' w.fuses).1 ≡ false))
unfolding gate_stage
gate_stage-orders env e w h =
    let fuses = (Api.is_tripped env.mono env.mono' w.fuses).0 in
    let sent = active_stage-orders env e (record w { fuses = fuses }) h in ground arith

-- With an active epoch, a poll sends at most one order: a buy of the configured amount, only if the
-- bot may act and may buy on that epoch, or a sale, only if it may act, the epoch has purchases and
-- its profit has reached the target.
pub poll_market-orders :
    (env : Env) (w : World) (e : Epoch)
    → w.louise.active_epoch ≡ some e
    → let w' = (poll_market env w).0 in
      (w'.orders ≡ w.orders)
      ⊎ (Bought w w' × MayAct env w × MayBuy env w e)
      ⊎ (Sold w w' × MayAct env w × (target_reached w e ≡ true) × (0 < e.num_purchases))
unfolding poll_market market_stage gate_stage active_stage
poll_market-orders env w e h =
    let filters = (ensure_loaded w.louise.config.symbol env.symbol_info w.filters).0 in
    let sent = gate_stage-orders env e w h in
    let sent' = gate_stage-orders env e (record w { filters = filters }) h in ground arith
