-- ===== src/Louise/FillTests.antt =====
-- The fills of the bot of Louise/Fixtures, and its restart.
use pecunator_accu_monetas.Prelude.{
  ℕ, ◌≡◌, inr, refl, true, false, some, List, [], ◌∷◌, ◌++◌, arith,
}
use pecunator_accu_monetas.Prelude.Frac.{Frac, of_ℕ}
use pecunator_accu_monetas.Louise.Store.{
  find_bot, get_active_epoch, update_epoch_stats, add_purchase, update_epoch, latest, find_epoch,
}
use pecunator_accu_monetas.Louise.State.{ClientOid, Pending, World}
use pecunator_accu_monetas.Louise.Fills.{
  on_buy_filled, price_at_buy, Report, find_pending, on_execution_report,
}
use pecunator_accu_monetas.Louise.Averages.{
  Averages, after_fills, total_volume, after_fills-Averages,
}
use pecunator_accu_monetas.Louise.Stale.{two_fills_one_snapshot, purchase_of, with_figures}
use pecunator_accu_monetas.Louise.Start.{initialize}
use pecunator_accu_monetas.Louise.Recovery.{initialize-on_buy_filled}
use pecunator_accu_monetas.Louise.Fixtures.{config, epoch_1, empty_epoch, bought_epoch, world_with}

abbrev report : ℕ → ℕ → Frac → Report
report placed_at cost volume = record {
  client_oid = ClientOid.buy_oid placed_at;
  filled = true;
  volume = volume;
  cost_usdt = of_ℕ cost;
  price = of_ℕ 100;
}

abbrev tenth : Frac
tenth = record { num = 1; den = 10 }

abbrev twentieth : Frac
twentieth = record { num = 1; den = 20 }

abbrev fills : List Report
fills = report 1000 10 twentieth ∷ report 1010 10 tenth ∷ []

no_purchases : Averages empty_epoch (of_ℕ 0)
no_purchases = record {
  exact = refl;
  cost_den = omega arith;
  avg_den = omega arith;
  volume_den = omega arith;
  started = inr (refl, refl, refl);
}

after_fills-Averages_example :
    Averages (after_fills fills empty_epoch) (total_volume fills (of_ℕ 0))
after_fills-Averages_example = after_fills-Averages fills empty_epoch (of_ℕ 0) no_purchases (
  (omega arith, omega arith, omega arith, omega arith),
  ((omega arith, omega arith, omega arith, omega arith), tt),
)

-- Two buys that were sent before the first was filled.
abbrev two_pending : World
two_pending =
    let w = world_with bought_epoch in
    record w {
      louise = record (w.louise) {
        pending_orders =
            (ClientOid.buy_oid 1000, Pending.buying bought_epoch false)
            ∷ (ClientOid.buy_oid 1010, Pending.buying bought_epoch false)
            ∷ [];
      };
    }

pending_first :
    find_pending (ClientOid.buy_oid 1000) two_pending.louise.pending_orders
    ≡ some (Pending.buying bought_epoch false)
unfolding find_pending
pending_first = refl

pending_second :
    find_pending (ClientOid.buy_oid 1010) two_pending.louise.pending_orders
    ≡ some (Pending.buying bought_epoch false)
unfolding find_pending
pending_second = refl

stored_epoch : find_epoch epoch_1 two_pending.db.epochs ≡ some bought_epoch
unfolding find_epoch
stored_epoch = refl

two_fills_one_snapshot_example :
    let r = report 1000 10 tenth in
    let r' = report 1010 10 tenth in
    let w' = on_execution_report r' 1030 (on_execution_report r 1020 two_pending) in
    (w'.db.purchases ≡ (
      ([] ++ purchase_of bought_epoch false r 1020 ∷ [])
      ++ purchase_of bought_epoch false r' 1030 ∷ []))
    × (find_epoch epoch_1 w'.db.epochs ≡ some (with_figures bought_epoch r' bought_epoch))
two_fills_one_snapshot_example =
    two_fills_one_snapshot two_pending bought_epoch bought_epoch (report 1000 10 tenth)
      (report 1010 10 tenth) false false 1020 1030 pending_first pending_second refl refl refl
      stored_epoch

abbrev lucky_report : Report
lucky_report = report 1000 10 tenth

abbrev filled_world : World
filled_world = on_buy_filled bought_epoch true lucky_report 1020 (world_with bought_epoch)

found_config : find_bot "louise_1" (world_with bought_epoch).db.bots ≡ some config
unfolding find_bot
found_config = refl

active_after_fill :
    get_active_epoch "louise_1" filled_world.db
    ≡ some (with_figures bought_epoch lucky_report bought_epoch)
unfolding on_buy_filled update_epoch_stats add_purchase update_epoch get_active_epoch latest
active_after_fill = refl

initialize-on_buy_filled_example :
    let restored = (initialize filled_world).0.louise.last_purchase_price in
    (restored ≡ price_at_buy lucky_report)
    × (◌≡◌ {A = _} true false → restored ≡ filled_world.louise.last_purchase_price)
    × (◌≡◌ {A = _} true true → filled_world.louise.last_purchase_price ≡ of_ℕ 200)
initialize-on_buy_filled_example =
    initialize-on_buy_filled bought_epoch (with_figures bought_epoch lucky_report bought_epoch) true
      lucky_report 1020 (world_with bought_epoch) config found_config active_after_fill refl tt
