-- ===== src/Louise/Fixtures.antt =====
-- A Louise bot of runtime/bot/louise.py with a buy of 10 USDT, a target of 2 % and a budget of 20
-- USDT, at a price of 100 USDT.
use pecunator_accu_monetas.Prelude.{true, false, none, some, [], ◌∷◌}
use pecunator_accu_monetas.Prelude.Frac.{of_ℕ}
use pecunator_accu_monetas.BudgetGuard.{default_ratio}
use pecunator_accu_monetas.Fuse.Breaker.{Breaker}
use pecunator_accu_monetas.Louise.Store.{Bot, BotStatus, Epoch, EpochId, EpochStatus}
use pecunator_accu_monetas.Louise.State.{Louise, World, Gate, Env}

abbrev pub closed : Breaker
closed = record {
  threshold = 8000;
  base_cooldown_sec = 300;
  limit = 6000;
  max_cooldown_sec = 3600;
  tripped = false;
  tripped_at = 0;
  reset_at = 0;
  current_cooldown = 300;
  trip_reason = none;
  trip_count = 0;
  consecutive_streak = 0;
}

abbrev pub config : Bot
config = record {
  bot_id = "louise_1";
  symbol = "BTCUSDT";
  buy_volume = 10;
  target_profit_pct = of_ℕ 2;
  daily_budget = 20;
  status = BotStatus.running;
  updated_at = 0;
}

abbrev pub epoch_1 : EpochId
epoch_1 = record { bot_id = "louise_1"; at = 100 }

abbrev pub empty_epoch : Epoch
empty_epoch = record {
  epoch_id = epoch_1;
  num_purchases = 0;
  total_cost = of_ℕ 0;
  avg_buy_price = of_ℕ 0;
  profit_usdt = none;
  status = EpochStatus.running;
  created_at = 100;
}

-- 10 USDT bought at 200.
abbrev pub bought_epoch : Epoch
bought_epoch = record empty_epoch {
  num_purchases = 1;
  total_cost = of_ℕ 10;
  avg_buy_price = of_ℕ 200;
}

abbrev pub bot_with : Epoch → Louise
bot_with e = record {
  bot_id = "louise_1";
  config = config;
  active_epoch = some e;
  current_price = of_ℕ 100;
  last_price_timestamp = 1000;
  usdt_free_balance = of_ℕ 500;
  pending_orders = [];
  cooldown_until = 0;
  last_purchase_price = of_ℕ 200;
  last_fill_was_lucky = false;
}

abbrev pub world_with : Epoch → World
world_with e = record {
  louise = bot_with e;
  db = record { bots = config ∷ []; epochs = e ∷ []; purchases = []; snapshots = [] };
  guard = record { max_daily_spend = 500; ratio = default_ratio; ledger = [] };
  fuses = record { api = closed; order = closed; alerts = [] };
  filters = [];
  orders = [];
  alerts = [];
}

abbrev pub env : Env
env = record {
  now = 1000;
  guard_now = 1000000;
  mono = 1;
  mono' = 1;
  gate = Gate.answers true;
  has_client = true;
  order_accepted = true;
  guard_db_ok = true;
  symbol_info = none;
  klines = some [];
  price_staleness_sec = 60;
  min_usdt_balance = 6;
  cooldown_buy_fail_sec = 300;
  cooldown_gateway_fail_sec = 60;
}
