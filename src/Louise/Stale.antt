-- ===== src/Louise/Stale.antt =====
-- What the execution reports of runtime/bot/louise.py leave in the store when two buys of one epoch
-- are pending with the same figures.
use pecunator_accu_monetas.Prelude.{
  ℕ, ◌+◌, ◌≡◌, ◌∙◌, refl, Bool, true, false, some, List, [], ◌++◌, ◌∷◌, arith,
}
use pecunator_accu_monetas.Louise.Store.{
  Epoch, Purchase, EpochId, find_epoch, update_epoch, update_epoch_stats, add_purchase,
}
use pecunator_accu_monetas.Louise.State.{Pending, World, ClientOid}
use pecunator_accu_monetas.Louise.Fills.{
  Report, new_cost, new_avg_price, price_at_buy, on_buy_filled, on_filled, on_execution_report,
  find_pending, drop_pending, same_oid,
}

-- A change of a row's figures changes what the store finds.
find_epoch-update_epoch :
    (id : EpochId) (f : Epoch → Epoch) (es : List Epoch) (row : Epoch)
    → ((e : Epoch) → (f e).epoch_id ≡ e.epoch_id)
    → find_epoch id es ≡ some row
    → find_epoch id (update_epoch id f es) ≡ some (f row)
unfolding find_epoch update_epoch
find_epoch-update_epoch id f [] row keeps h = cc
find_epoch-update_epoch id f (e ∷ es) row keeps h =
    let rest = find_epoch-update_epoch id f es row keeps in let kept = keeps e in ground arith

-- The row with the figures that a fill computes from `e`.
abbrev pub with_figures : Epoch → Report → Epoch → Epoch
with_figures e r row = record row {
  num_purchases = e.num_purchases + 1;
  total_cost = new_cost e r;
  avg_buy_price = new_avg_price e r;
}

find_epoch-on_buy_filled :
    (e : Epoch) (lucky : Bool) (r : Report) (now : ℕ) (w : World) (row : Epoch)
    → find_epoch e.epoch_id w.db.epochs ≡ some row
    → find_epoch e.epoch_id (on_buy_filled e lucky r now w).db.epochs ≡ some (with_figures e r row)
unfolding on_buy_filled update_epoch_stats add_purchase
find_epoch-on_buy_filled e lucky r now w row h =
    find_epoch-update_epoch e.epoch_id (with_figures e r) w.db.epochs row (λ x. refl) h

same_oid_exclusive :
    (o a b : ClientOid) → same_oid a b ≡ false → same_oid o a ≡ true → same_oid o b ≡ false
same_oid_exclusive (ClientOid.buy_oid o) (ClientOid.buy_oid a) (ClientOid.buy_oid b) h k =
    ground arith
same_oid_exclusive (ClientOid.sell_oid o) (ClientOid.sell_oid a) (ClientOid.sell_oid b) h k =
    ground arith
same_oid_exclusive (ClientOid.buy_oid o) (ClientOid.buy_oid a) (ClientOid.sell_oid b) h k = refl
same_oid_exclusive (ClientOid.buy_oid o) (ClientOid.buy_oid a) ClientOid.foreign h k = refl
same_oid_exclusive (ClientOid.sell_oid o) (ClientOid.sell_oid a) (ClientOid.buy_oid b) h k = refl
same_oid_exclusive (ClientOid.sell_oid o) (ClientOid.sell_oid a) ClientOid.foreign h k = refl
same_oid_exclusive (ClientOid.buy_oid o) (ClientOid.sell_oid a) b h k = cc
same_oid_exclusive (ClientOid.buy_oid o) ClientOid.foreign b h k = cc
same_oid_exclusive (ClientOid.sell_oid o) (ClientOid.buy_oid a) b h k = cc
same_oid_exclusive (ClientOid.sell_oid o) ClientOid.foreign b h k = cc
same_oid_exclusive ClientOid.foreign a b h k = refl

find_pending-drop_pending :
    (a b : ClientOid) (ps : List (ClientOid × Pending))
    → same_oid a b ≡ false
    → find_pending b (drop_pending a ps) ≡ find_pending b ps
unfolding find_pending drop_pending
find_pending-drop_pending a b [] h = refl
find_pending-drop_pending a b ((o, p) ∷ ps) h =
    let rest = find_pending-drop_pending a b ps h in
    let apart = same_oid_exclusive o a b h in ground arith

abbrev dropped : ClientOid → World → World
dropped oid w = record w {
  louise = record (w.louise) { pending_orders = drop_pending oid w.louise.pending_orders };
}

report_buying :
    (w : World) (e : Epoch) (r : Report) (lucky : Bool) (now : ℕ)
    → find_pending r.client_oid w.louise.pending_orders ≡ some (Pending.buying e lucky)
    → r.filled ≡ true
    → on_execution_report r now w ≡ on_buy_filled e lucky r now (dropped r.client_oid w)
unfolding on_execution_report on_filled
report_buying w e r lucky now p f = ground arith

abbrev pub purchase_of : Epoch → Bool → Report → ℕ → Purchase
purchase_of e lucky r now = record {
  epoch_id = e.epoch_id;
  price_at_buy = price_at_buy r;
  volume = r.volume;
  cost_usdt = r.cost_usdt;
  is_lucky_fill = lucky;
  created_at = now;
}

-- Two buys that were registered with the same figures of their epoch: once both are filled, the
-- store has both purchases, but the epoch's count, cost and average price are those of the second
-- fill alone.
pub two_fills_one_snapshot :
    (w : World) (e row : Epoch) (r r' : Report) (lucky lucky' : Bool) (now now' : ℕ)
    → find_pending r.client_oid w.louise.pending_orders ≡ some (Pending.buying e lucky)
    → find_pending r'.client_oid w.louise.pending_orders ≡ some (Pending.buying e lucky')
    → same_oid r.client_oid r'.client_oid ≡ false
    → r.filled ≡ true
    → r'.filled ≡ true
    → find_epoch e.epoch_id w.db.epochs ≡ some row
    → let w' = on_execution_report r' now' (on_execution_report r now w) in
      (w'.db.purchases
        ≡ (w.db.purchases ++ purchase_of e lucky r now ∷ []) ++ purchase_of e lucky' r' now' ∷ [])
      × (find_epoch e.epoch_id w'.db.epochs ≡ some (with_figures e r' row))
unfolding on_buy_filled update_epoch_stats add_purchase
two_fills_one_snapshot w e row r r' lucky lucky' now now' p p' apart f f' h =
    let first = report_buying w e r lucky now p f in
    let mid = on_buy_filled e lucky r now (dropped r.client_oid w) in
    let kept =
      find_pending-drop_pending r.client_oid r'.client_oid w.louise.pending_orders apart ∙ p' in
    let second = report_buying mid e r' lucky' now' kept f' in
    let found = find_epoch-on_buy_filled e lucky r now (dropped r.client_oid w) row h in
    let found' =
      find_epoch-on_buy_filled e lucky' r' now' (dropped r'.client_oid mid) (with_figures e r row)
        found in
    rw (first, second) (refl, found')
