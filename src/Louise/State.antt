-- ===== src/Louise/State.antt =====
-- The state of `LouiseBotRunner` of runtime/bot/louise.py, and what it shares with the rest of the
-- engine: the store, the budget guard, the fuses, the filters, the orders sent and the alerts.
-- The configured amounts, the budget and the ledger are whole numbers of USDT, the unit in which the
-- filters have their minimum notional; prices and volumes are exact fractions.
use Prim.Native.String.{String}
use pecunator_accu_monetas.Prelude.{ℕ, Bool, Option, List}
use pecunator_accu_monetas.Prelude.Frac.{Frac, Signed}
use pecunator_accu_monetas.Louise.Store.{Bot, Epoch, EpochId, Db}
use pecunator_accu_monetas.BudgetGuard.{Guard}
use pecunator_accu_monetas.Fuse.Api.{Fuses}
use pecunator_accu_monetas.ExchangeFilters.{SymbolFilters, FilterEntry}
use pecunator_accu_monetas.Prelude.Dict.{Dict}

-- `l_{bot_id}_{time}` and `ls_{bot_id}_{time}`, or the id of an order of another client.
pub data ClientOid : Type 0 where
  buy_oid : ℕ → ClientOid
  sell_oid : ℕ → ClientOid
  foreign : ClientOid

-- An entry of `pending_orders`.
pub data Pending : Type 0 where
  buying : Epoch → Bool → Pending
  selling : EpochId → Signed → Pending

pub record Louise : Type 0 where
  pub bot_id : String
  pub config : Bot
  pub active_epoch : Option Epoch
  pub current_price : Frac
  pub last_price_timestamp : ℕ
  pub usdt_free_balance : Frac
  pub pending_orders : List (ClientOid × Pending)
  pub cooldown_until : ℕ
  pub last_purchase_price : Frac
  pub last_fill_was_lucky : Bool

-- An order given to the exchange or to the paper trade: a buy for an amount, a sale of a quantity.
pub data Order : Type 0 where
  market_buy : ℕ → Order
  market_sell : Frac → Order

pub data AlertCode : Type 0 where
  no_gateway buy_failed sell_invalid_epoch sell_blocked_no_filters : AlertCode
  sell_blocked_no_gateway sell_execution_failed : AlertCode

pub record World : Type 0 where
  pub louise : Louise
  pub db : Db
  pub guard : Guard
  pub fuses : Fuses
  pub filters : Dict SymbolFilters
  pub orders : List Order
  pub alerts : List AlertCode

-- The method `can_execute` of the governor: missing, or with its answer.
pub data Gate : Type 0 where
  missing : Gate
  answers : Bool → Gate

-- A daily candle: whether it is closed, and the low of its Heikin-Ashi form.
pub record Kline : Type 0 where
  pub is_closed : Bool
  pub ha_low : Option Frac

-- What a poll reads from outside: clocks, settings, the gateway's client and its answers.
pub record Env : Type 0 where
  pub now : ℕ
  pub guard_now : ℕ
  pub mono : ℕ
  pub mono' : ℕ
  pub gate : Gate
  pub has_client : Bool
  pub order_accepted : Bool
  pub guard_db_ok : Bool
  pub symbol_info : Option (List FilterEntry)
  pub klines : Option (List Kline)
  pub price_staleness_sec : ℕ
  pub min_usdt_balance : ℕ
  pub cooldown_buy_fail_sec : ℕ
  pub cooldown_gateway_fail_sec : ℕ
