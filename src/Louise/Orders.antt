-- ===== src/Louise/Orders.antt =====
-- `_is_lucky_entry`, `_execute_buy` and `_execute_sell` of runtime/bot/louise.py. A paper trade is
-- an order that is always accepted; the report that a paper buy sends is `paper_buy`.
use pecunator_accu_monetas.Prelude.{
  ℕ, ◌+◌, Bool, true, false, ◌||◌, not, Option, none, some, List, [], ◌∷◌, if◌then◌else◌,
}
use pecunator_accu_monetas.Prelude.Frac.{Frac, Signed, of_ℕ, div, subtract, is_pos, leb_frac}
use pecunator_accu_monetas.Louise.Store.{Epoch}
use pecunator_accu_monetas.Louise.State.{ClientOid, Pending, Order, AlertCode, World, Kline, Env}
use pecunator_accu_monetas.Louise.Fills.{Report, put_pending}
use pecunator_accu_monetas.ExchangeFilters.{quantize_qty}
use pecunator_accu_monetas.Prelude.Dict.{lookup}

-- The first closed candle of those that the vault returned.
unfoldable pub first_closed : List Kline → Option Kline
first_closed [] = none
first_closed (k ∷ ks) = if k.is_closed then some k else first_closed ks

-- `_is_lucky_entry`; `none` is an exception of the vault.
unfoldable pub is_lucky_entry : Frac → Option (List Kline) → Bool
is_lucky_entry price none = false
is_lucky_entry price (some ks) = elim (first_closed ks) [
  | none ↦ false
  | some k ↦ elim (k.ha_low) [ none ↦ false | some low ↦ leb_frac price low ]
]

abbrev pub alert : AlertCode → World → World
alert code w = record w { alerts = code ∷ w.alerts }

abbrev pub cool_down : ℕ → World → World
cool_down until w = record w { louise = record (w.louise) { cooldown_until = until } }

abbrev pub register : ClientOid → Pending → World → World
register oid p w = record w {
  louise = record (w.louise) { pending_orders = put_pending oid p w.louise.pending_orders };
}

-- `_execute_buy`: the order is registered before it is sent, and stays registered if it fails.
unfoldable pub execute_buy : Env → Epoch → ℕ → World → World
execute_buy env e cost w =
    let lucky = is_lucky_entry w.louise.current_price env.klines in
    let w' = register (ClientOid.buy_oid env.now) (Pending.buying e lucky) w in
    if not env.has_client
    then cool_down (env.now + env.cooldown_gateway_fail_sec) (alert AlertCode.no_gateway w)
    else if env.order_accepted
    then record w' {
      orders = Order.market_buy cost ∷ w'.orders;
      louise = record (w'.louise) {
        usdt_free_balance = subtract w'.louise.usdt_free_balance (of_ℕ cost);
      };
    }
    else cool_down (env.now + env.cooldown_buy_fail_sec) (alert AlertCode.buy_failed w')

-- The sale of a quantity, registered and sent.
unfoldable pub send_sell : Env → Epoch → Signed → Frac → World → World
send_sell env e profit_usdt qty w =
    let w' = register (ClientOid.sell_oid env.now) (Pending.selling e.epoch_id profit_usdt) w in
    if not env.has_client
    then cool_down (env.now + env.cooldown_gateway_fail_sec)
        (alert AlertCode.sell_blocked_no_gateway w)
    else if env.order_accepted
    then record w' { orders = Order.market_sell qty ∷ w'.orders }
    else cool_down (env.now + env.cooldown_buy_fail_sec) (alert AlertCode.sell_execution_failed w')

-- `_execute_sell`
unfoldable pub execute_sell : Env → Epoch → Signed → World → World
execute_sell env e profit_usdt w =
    if not (is_pos e.avg_buy_price) || not (is_pos e.total_cost)
    then cool_down (env.now + env.cooldown_buy_fail_sec) (alert AlertCode.sell_invalid_epoch w)
    else elim (lookup w.louise.config.symbol w.filters) [
      | none ↦
          cool_down (env.now + env.cooldown_gateway_fail_sec)
            (alert AlertCode.sell_blocked_no_filters w)
      | some f ↦ send_sell env e profit_usdt (quantize_qty f (div e.total_cost e.avg_buy_price)) w
    ]

-- The report that a paper buy of `cost` sends after its delay: it has no volume `z`.
unfoldable pub paper_buy : ℕ → ℕ → Frac → Report
paper_buy placed_at cost price = record {
  client_oid = ClientOid.buy_oid placed_at;
  filled = true;
  volume = of_ℕ 0;
  cost_usdt = of_ℕ cost;
  price = price;
}
