-- ===== src/Louise/Recovery.antt =====
-- What a restart of runtime/bot/louise.py restores of the price of the last purchase.
use pecunator_accu_monetas.Prelude.{
  ℕ, ◌≡◌, ◌≤◌, refl, ap, ◌∙◌, Bool, true, false, some, List, [], ◌∷◌, ◌++◌, arith, keep_if, All,
  Bool-cases, inl, inr,
}
use pecunator_accu_monetas.Prelude.Frac.{Frac}
use pecunator_accu_monetas.Louise.Store.{
  Bot, Epoch, Purchase, find_bot, get_active_epoch, get_purchases_by_epoch, add_purchase,
  update_epoch_stats, same_epoch, insert_by_time, by_time,
}
use pecunator_accu_monetas.Louise.State.{World}
use pecunator_accu_monetas.Louise.Fills.{Report, on_buy_filled, price_at_buy}
use pecunator_accu_monetas.Louise.Start.{initialize, last_price}
use pecunator_accu_monetas.Louise.Stale.{purchase_of}

last_price-snoc :
    (ps : List Purchase) (p : Purchase) (price : Frac)
    → last_price (ps ++ p ∷ []) price ≡ p.price_at_buy
unfolding last_price
last_price-snoc [] p price = refl
last_price-snoc (q ∷ ps) p price = last_price-snoc ps p q.price_at_buy

insert_by_time-snoc :
    (q p : Purchase) (ps : List Purchase)
    → q.created_at ≤ p.created_at
    → insert_by_time q (ps ++ p ∷ []) ≡ insert_by_time q ps ++ p ∷ []
unfolding insert_by_time
insert_by_time-snoc q p [] h = ground arith
insert_by_time-snoc q p (r ∷ ps) h = ground (arith, insert_by_time-snoc q p ps h)

-- The purchases of an epoch with a last one that is no earlier than the others.
by_time-snoc :
    (P : Purchase → Bool) (ps : List Purchase) (p : Purchase)
    → P p ≡ true
    → All (λ q. P q ≡ true → q.created_at ≤ p.created_at) ps
    → by_time (keep_if P (ps ++ p ∷ [])) ≡ by_time (keep_if P ps) ++ p ∷ []
unfolding by_time insert_by_time
by_time-snoc P [] p h before = rw (h) refl
by_time-snoc P (q ∷ ps) p h (first, before) =
    let rest = by_time-snoc P ps p h before in
    elim (Bool-cases (P q)) [
      | inr other ↦ rw (other) rest
      | inl same ↦ rw (same) (
          ap (insert_by_time q) rest
          ∙ insert_by_time-snoc q p (by_time (keep_if P ps)) (first same))
    ]

initialize_restores :
    (w : World) (bot : Bot) (e : Epoch)
    → find_bot w.louise.bot_id w.db.bots ≡ some bot
    → get_active_epoch w.louise.bot_id w.db ≡ some e
    → (initialize w).0.louise.last_purchase_price
      ≡ last_price (get_purchases_by_epoch e.epoch_id w.db) w.louise.last_purchase_price
unfolding initialize
initialize_restores w bot e h k = ground arith

-- After a fill on the epoch that the store has active, at a reading of the clock that is not before
-- any purchase of this epoch, a restart restores the price of that fill as the price of the last
-- purchase. That is the one that the bot had if the fill was not lucky; if it was lucky, the bot had
-- kept the one from before the fill.
pub initialize-on_buy_filled :
    (e e' : Epoch) (lucky : Bool) (r : Report) (now : ℕ) (w : World) (bot : Bot)
    → find_bot w.louise.bot_id w.db.bots ≡ some bot
    → get_active_epoch w.louise.bot_id (on_buy_filled e lucky r now w).db ≡ some e'
    → same_epoch e.epoch_id e'.epoch_id ≡ true
    → All (λ p. same_epoch p.epoch_id e'.epoch_id ≡ true → p.created_at ≤ now) w.db.purchases
    → let w' = on_buy_filled e lucky r now w in
      let restored = (initialize w').0.louise.last_purchase_price in
      (restored ≡ price_at_buy r)
      × (lucky ≡ false → restored ≡ w'.louise.last_purchase_price)
      × (lucky ≡ true → w'.louise.last_purchase_price ≡ w.louise.last_purchase_price)
unfolding on_buy_filled update_epoch_stats add_purchase get_purchases_by_epoch
initialize-on_buy_filled e e' lucky r now w bot found active held before =
    let w' = on_buy_filled e lucky r now w in
    let restores = initialize_restores w' bot e' found active in
    let mine = λ (p : Purchase). same_epoch p.epoch_id e'.epoch_id in
    let p = purchase_of e lucky r now in
    let before_price = w'.louise.last_purchase_price in
    let sorted = by_time-snoc mine w.db.purchases p held before in
    let restored =
      restores
      ∙ ap (λ ps. last_price ps before_price) sorted
      ∙ last_price-snoc (by_time (keep_if mine w.db.purchases)) p before_price in
    (restored, λ plain. rw (restored, plain) refl, λ l. rw (l) refl)
