-- ===== src/Louise/Tests.antt =====
-- The polls of the bot of Louise/Fixtures.
use pecunator_accu_monetas.Prelude.{◌<◌, ◌≡◌, ◌⊎◌, refl, true, []}
use pecunator_accu_monetas.Louise.State.{Gate}
use pecunator_accu_monetas.Louise.Poll.{poll_market}
use pecunator_accu_monetas.Louise.Blocked.{poll_market_blocked}
use pecunator_accu_monetas.Louise.Buys.{
  MayAct, MayBuy, Bought, Sold, target_reached, poll_market-orders,
}
use pecunator_accu_monetas.Louise.Fixtures.{bought_epoch, bot_with, world_with, env}

poll_market_blocked_example :
    let (w', outcome) =
      poll_market (record env { gate = Gate.missing }) (world_with bought_epoch) in
    (w'.orders ≡ [])
    × (w'.db ≡ (world_with bought_epoch).db)
    × (w'.guard ≡ (world_with bought_epoch).guard)
    × (w'.louise ≡ bot_with bought_epoch)
poll_market_blocked_example =
    poll_market_blocked (record env { gate = Gate.missing }) (world_with bought_epoch) refl

poll_market-orders_example :
    let w = world_with bought_epoch in
    let w' = (poll_market env w).0 in
    (w'.orders ≡ w.orders)
    ⊎ (Bought w w' × MayAct env w × MayBuy env w bought_epoch)
    ⊎ (Sold w w'
        × MayAct env w
        × (target_reached w bought_epoch ≡ true)
        × (0 < bought_epoch.num_purchases))
poll_market-orders_example = poll_market-orders env (world_with bought_epoch) bought_epoch refl
