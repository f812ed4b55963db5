-- ===== src/Louise/Fills.antt =====
-- `_on_execution_report` of runtime/bot/louise.py: what a fill does to the store and to the bot.
use pecunator_accu_monetas.Prelude.{
  ℕ, ◌+◌, Bool, false, Option, none, some, List, [], ◌∷◌, ◌==◌, if◌then◌else◌,
}
use pecunator_accu_monetas.Prelude.Frac.{Frac, of_ℕ, add, div, is_pos}
use pecunator_accu_monetas.Louise.Store.{
  Epoch, add_purchase, update_epoch_stats, close_epoch, get_active_epoch,
}
use pecunator_accu_monetas.Louise.State.{ClientOid, Pending, World}

-- An execution report: the client's order id, whether the order is filled, the volume `z`, the
-- amount of USDT `Z` and the price `p`. A missing field is 0.
pub record Report : Type 0 where
  pub client_oid : ClientOid
  pub filled : Bool
  pub volume : Frac
  pub cost_usdt : Frac
  pub price : Frac

abbrev pub same_oid : ClientOid → ClientOid → Bool
same_oid (ClientOid.buy_oid a) (ClientOid.buy_oid b) = a == b
same_oid (ClientOid.sell_oid a) (ClientOid.sell_oid b) = a == b
same_oid _ _ = false

unfoldable pub find_pending : ClientOid → List (ClientOid × Pending) → Option Pending
find_pending oid [] = none
find_pending oid ((o, p) ∷ ps) = if same_oid o oid then some p else find_pending oid ps

-- `pending_orders[oid] = p`
unfoldable pub put_pending :
    ClientOid → Pending → List (ClientOid × Pending) → List (ClientOid × Pending)
put_pending oid p [] = (oid, p) ∷ []
put_pending oid p ((o, q) ∷ ps) =
    if same_oid o oid then (oid, p) ∷ ps else (o, q) ∷ put_pending oid p ps

-- `pending_orders.pop(oid)`
unfoldable pub drop_pending : ClientOid → List (ClientOid × Pending) → List (ClientOid × Pending)
drop_pending oid [] = []
drop_pending oid ((o, p) ∷ ps) = if same_oid o oid then ps else (o, p) ∷ drop_pending oid ps

-- `cost_usdt / volume`, or the order's price if there is no volume.
unfoldable pub price_at_buy : Report → Frac
price_at_buy r = if is_pos r.volume then div r.cost_usdt r.volume else r.price

-- The volume that the epoch's cost and average price stand for.
unfoldable pub current_volume : Frac → Frac → Frac
current_volume cost avg = if is_pos avg then div cost avg else of_ℕ 0

-- The total cost and the average price after a fill.
unfoldable pub new_cost : Epoch → Report → Frac
new_cost e r = add e.total_cost r.cost_usdt

unfoldable pub new_avg_price : Epoch → Report → Frac
new_avg_price e r =
    let volume = add (current_volume e.total_cost e.avg_buy_price) r.volume in
    if is_pos volume then div (new_cost e r) volume else price_at_buy r

-- A filled buy, with the epoch and the flag that were kept with its order.
unfoldable pub on_buy_filled : Epoch → Bool → Report → ℕ → World → World
on_buy_filled e lucky r now w =
    let db =
      update_epoch_stats e.epoch_id (e.num_purchases + 1) (new_cost e r) (new_avg_price e r) (
        add_purchase
          (record {
            epoch_id = e.epoch_id;
            price_at_buy = price_at_buy r;
            volume = r.volume;
            cost_usdt = r.cost_usdt;
            is_lucky_fill = lucky;
            created_at = now;
          })
          w.db) in
    record w {
      db = db;
      louise = record (w.louise) {
        active_epoch = get_active_epoch w.louise.bot_id db;
        last_fill_was_lucky = lucky;
        last_purchase_price = if lucky then w.louise.last_purchase_price else price_at_buy r;
      };
    }

-- A filled order by its type: a filled sale closes its epoch.
unfoldable pub on_filled : Pending → Report → ℕ → World → World
on_filled (Pending.buying e lucky) r now w = on_buy_filled e lucky r now w
on_filled (Pending.selling id profit) r now w = record w {
  db = close_epoch id profit w.db;
  louise = record (w.louise) { active_epoch = none };
}

-- `_on_execution_report`
unfoldable pub on_execution_report : Report → ℕ → World → World
on_execution_report r now w =
    let found = if r.filled then find_pending r.client_oid w.louise.pending_orders else none in
    elim found [
      | none ↦ w
      | some p ↦ on_filled p r now (record w {
        louise = record (w.louise) {
          pending_orders = drop_pending r.client_oid w.louise.pending_orders;
        };
      })
    ]
