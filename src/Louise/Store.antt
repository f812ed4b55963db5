-- ===== src/Louise/Store.antt =====
-- The tables of runtime/core/louise_db.py that a Louise bot reads and writes, and the operations on
-- them. Rows stand in the order of insertion. An id is the tuple of the parts of its text. Columns
-- of no use to the bot are left out. The times are `int(time.time())` and are arguments.
use Prim.Native.String.{String}
use pecunator_accu_monetas.Prelude.{
  get_or, ℕ, Bool, true, false, ◌&&◌, Option, none, some, List, [], ◌∷◌, ◌++◌, map, ltb, leb, ◌==◌,
  if◌then◌else◌, keep_if,
}
use pecunator_accu_monetas.Prelude.Dict.{same}
use pecunator_accu_monetas.Prelude.Frac.{Frac, Signed, of_ℕ, add_signed, scale, div, is_pos}

pub data BotStatus : Type 0 where
  idle accumulating running paused shutdown : BotStatus

-- A row of `louise_bots`.
pub record Bot : Type 0 where
  pub bot_id : String
  pub symbol : String
  pub buy_volume : ℕ
  pub target_profit_pct : Frac
  pub daily_budget : ℕ
  pub status : BotStatus
  pub updated_at : ℕ

-- `epoch_{bot_id}_{time}`
pub record EpochId : Type 0 where
  pub bot_id : String
  pub at : ℕ

pub data EpochStatus : Type 0 where
  running closed_successful : EpochStatus

-- A row of `louise_epochs`.
pub record Epoch : Type 0 where
  pub epoch_id : EpochId
  pub num_purchases : ℕ
  pub total_cost : Frac
  pub avg_buy_price : Frac
  pub profit_usdt : Option Signed
  pub status : EpochStatus
  pub created_at : ℕ

-- A row of `louise_purchases`.
pub record Purchase : Type 0 where
  pub epoch_id : EpochId
  pub price_at_buy : Frac
  pub volume : Frac
  pub cost_usdt : Frac
  pub is_lucky_fill : Bool
  pub created_at : ℕ

-- A row of `pnl_snapshots`; the type is always "louise".
pub record Snapshot : Type 0 where
  pub bot_id : String
  pub epoch_id : EpochId
  pub snapshot_at : ℕ
  pub current_price : Frac
  pub avg_entry_price_usdt : Frac
  pub num_entries : ℕ
  pub total_committed_usdt : Frac
  pub unrealized_pnl_usdt : Signed
  pub unrealized_pnl_pct : Signed
  pub cumulative_realized_pnl_usdt : Signed
  pub net_position_usdt : Signed
  pub net_position_pct : Signed

pub record Db : Type 0 where
  pub bots : List Bot
  pub epochs : List Epoch
  pub purchases : List Purchase
  pub snapshots : List Snapshot

abbrev pub same_epoch : EpochId → EpochId → Bool
same_epoch a b = same a.bot_id b.bot_id && a.at == b.at

-- `update_bot_status`
unfoldable pub update_bot_status : String → BotStatus → ℕ → Db → Db
update_bot_status bot_id status now db = record db {
  bots =
      map (λ b. if same b.bot_id bot_id then record b { status = status; updated_at = now } else b)
        db.bots;
}

-- `get_bot`
unfoldable pub find_bot : String → List Bot → Option Bot
find_bot bot_id [] = none
find_bot bot_id (b ∷ bs) = if same b.bot_id bot_id then some b else find_bot bot_id bs

-- `get_epoch`
unfoldable pub find_epoch : EpochId → List Epoch → Option Epoch
find_epoch id [] = none
find_epoch id (e ∷ es) = if same_epoch e.epoch_id id then some e else find_epoch id es

-- `create_epoch`: `none` is the exception for a primary key that is there already.
unfoldable pub create_epoch : EpochId → ℕ → Db → Option Db
create_epoch id now db = elim (find_epoch id db.epochs) [
  | none ↦ some (record db {
    epochs =
        db.epochs
        ++ record {
          epoch_id = id;
          num_purchases = 0;
          total_cost = of_ℕ 0;
          avg_buy_price = of_ℕ 0;
          profit_usdt = none;
          status = EpochStatus.running;
          created_at = now;
        }
          ∷ [];
  })
  | some _ ↦ none
]

-- `UPDATE louise_epochs … WHERE epoch_id = ?`
unfoldable pub update_epoch : EpochId → (Epoch → Epoch) → List Epoch → List Epoch
update_epoch id f [] = []
update_epoch id f (e ∷ es) = (if same_epoch e.epoch_id id then f e else e) ∷ update_epoch id f es

-- `update_epoch_stats`
unfoldable pub update_epoch_stats : EpochId → ℕ → Frac → Frac → Db → Db
update_epoch_stats id num_purchases total_cost avg_buy_price db = record db {
  epochs =
      update_epoch id
        (λ e. record e {
          num_purchases = num_purchases;
          total_cost = total_cost;
          avg_buy_price = avg_buy_price;
        })
        db.epochs;
}

-- `close_epoch`
unfoldable pub close_epoch : EpochId → Signed → Db → Db
close_epoch id profit_usdt db = record db {
  epochs =
      update_epoch id
        (λ e. record e { profit_usdt = some profit_usdt; status = EpochStatus.closed_successful })
        db.epochs;
}

-- `add_purchase`; the purchase's id, which holds the order's id, is taken to be new.
unfoldable pub add_purchase : Purchase → Db → Db
add_purchase p db = record db { purchases = db.purchases ++ p ∷ [] }

abbrev pub is_active : String → Epoch → Bool
is_active bot_id e =
    same e.epoch_id.bot_id bot_id && elim e.status [ EpochStatus.running ↦ true | _ ↦ false ]

-- `ORDER BY created_at DESC LIMIT 1`
unfoldable pub latest : List Epoch → Option Epoch
latest [] = none
latest (e ∷ es) = elim (latest es) [
  | none ↦ some e
  | some f ↦ if ltb e.created_at f.created_at then some f else some e
]

-- `get_active_epoch`
unfoldable pub get_active_epoch : String → Db → Option Epoch
get_active_epoch bot_id db = latest (keep_if (is_active bot_id) db.epochs)

-- `ORDER BY created_at ASC`, in which rows of the same time stand as they were inserted.
unfoldable pub insert_by_time : Purchase → List Purchase → List Purchase
insert_by_time p [] = p ∷ []
insert_by_time p (q ∷ qs) =
    let rest = insert_by_time p qs in if leb p.created_at q.created_at then p ∷ q ∷ qs else q ∷ rest

unfoldable pub by_time : List Purchase → List Purchase
by_time [] = []
by_time (p ∷ ps) = insert_by_time p (by_time ps)

-- `get_purchases_by_epoch`
unfoldable pub get_purchases_by_epoch : EpochId → Db → List Purchase
get_purchases_by_epoch id db = by_time (keep_if (λ p. same_epoch p.epoch_id id) db.purchases)

abbrev pub no_profit : Signed
no_profit = record { plus = 0; minus = 0; over = 1 }

-- A closed epoch of the bot; SUM leaves out a missing profit.
unfoldable pub realized_of : String → Epoch → Signed
realized_of bot_id e =
    if same e.epoch_id.bot_id bot_id
    then elim e.status [ EpochStatus.running ↦ no_profit | _ ↦ get_or e.profit_usdt no_profit ]
    else no_profit

unfoldable pub sum_realized : String → List Epoch → Signed
sum_realized bot_id [] = no_profit
sum_realized bot_id (e ∷ es) = add_signed (realized_of bot_id e) (sum_realized bot_id es)

-- `get_total_realized_pnl`
unfoldable pub get_total_realized_pnl : String → Db → Signed
get_total_realized_pnl bot_id db = sum_realized bot_id db.epochs

-- `record_pnl_snapshot`, whose row is given without its net position.
unfoldable pub record_pnl_snapshot : Snapshot → Db → Db
record_pnl_snapshot s db =
    let net = add_signed s.cumulative_realized_pnl_usdt s.unrealized_pnl_usdt in
    let pct =
      if is_pos s.total_committed_usdt
      then scale (scale net (div (of_ℕ 1) s.total_committed_usdt)) (of_ℕ 100)
      else no_profit in
    record db {
      snapshots = db.snapshots ++ record s { net_position_usdt = net; net_position_pct = pct } ∷ [];
    }
