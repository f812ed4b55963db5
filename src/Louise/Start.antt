-- ===== src/Louise/Start.antt =====
-- `initialize`, `start`, `stop` and the handlers of prices and balances of runtime/bot/louise.py.
-- The task that runs the polls is not modelled, and neither are the subscriptions.
use Prim.Native.String.{String}
use pecunator_accu_monetas.Prelude.{
  ℕ, Bool, true, false, Option, none, some, List, [], ◌∷◌, if◌then◌else◌,
}
use pecunator_accu_monetas.Prelude.Dict.{same}
use pecunator_accu_monetas.Prelude.Frac.{Frac}
use pecunator_accu_monetas.Louise.Store.{
  BotStatus, Purchase, find_bot, update_bot_status, get_active_epoch, get_purchases_by_epoch,
}
use pecunator_accu_monetas.Louise.State.{World}

-- `purchases[-1]['price_at_buy']`, or the price that was there.
unfoldable pub last_price : List Purchase → Frac → Frac
last_price [] price = price
last_price (p ∷ ps) price = last_price ps p.price_at_buy

-- `initialize`: whether the bot is in the store, and its state after it.
unfoldable pub initialize : World → World × Bool
initialize w = elim (find_bot w.louise.bot_id w.db.bots) [
  | none ↦ (w, false)
  | some config ↦
      let active = get_active_epoch w.louise.bot_id w.db in
      let price : Frac = elim active [
        | none ↦ w.louise.last_purchase_price
        | some e ↦ last_price (get_purchases_by_epoch e.epoch_id w.db) w.louise.last_purchase_price
      ] in
      (
        record w {
          louise = record (w.louise) {
            config = config;
            active_epoch = active;
            last_purchase_price = price;
          };
        },
        true,
      )
]

-- A change of the status, in the store and in the bot's own copy.
abbrev set_status : BotStatus → ℕ → World → World
set_status status now w = record w {
  db = update_bot_status w.louise.bot_id status now w.db;
  louise = record (w.louise) { config = record (w.louise.config) { status = status } };
}

-- `start` of an initialized bot.
unfoldable pub start : ℕ → World → World
start now w = set_status BotStatus.running now w

-- `stop`
unfoldable pub stop : Bool → ℕ → World → World
stop shutdown_db now w = if shutdown_db then set_status BotStatus.shutdown now w else w

-- `_on_ticker`, whose data may have no price.
unfoldable pub on_ticker : Option Frac → ℕ → World → World
on_ticker none now w = w
on_ticker (some price) now w = record w {
  louise = record (w.louise) { current_price = price; last_price_timestamp = now };
}

-- A balance: its asset and its free amount.
pub record Balance : Type 0 where
  pub asset : String
  pub free : Frac

-- `_on_balances`: the first balance in USDT.
unfoldable pub on_balances : List Balance → World → World
on_balances [] w = w
on_balances (b ∷ bs) w =
    if same b.asset "USDT"
    then record w { louise = record (w.louise) { usdt_free_balance = b.free } }
    else on_balances bs w
