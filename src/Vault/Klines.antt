-- ===== src/Vault/Klines.antt =====
-- The candles of `TelemetryVault` of runtime/core/telemetry_vault.py: `store_klines_with_ha`, `_get_last_ha`
-- and `get_klines`. A table is the list of its rows in the order of their ids; the columns that are
-- stored as they come are one text, and the time of the writing is not modelled.
use Prim.Native.String.{String}
use pecunator_accu_monetas.Prelude.{
  ℕ, Bool, true, false, ◌&&◌, Option, none, some, List, [], ◌∷◌, ltb, leb, ◌==◌, if◌then◌else◌,
  length, keep_if, ◌+◌, ◌-◌, ◌*◌,
}
use pecunator_accu_monetas.Prelude.Dict.{same}
use pecunator_accu_monetas.Prelude.Slices.{first_of}
use pecunator_accu_monetas.Prelude.Frac.{Frac, of_ℕ, add, div}
use pecunator_accu_monetas.Trend.Candles.{Kline, HaCandle, next_candle}

-- A kline of the exchange; `candle` is `none` where a field of it cannot be read.
pub record Raw : Type 0 where
  pub open_time : ℕ
  pub candle : Option Kline
  pub close_time : ℕ
  pub rest : String

pub record Row : Type 0 where
  pub symbol : String
  pub interval : String
  pub open_time : ℕ
  pub candle : Kline
  pub close_time : ℕ
  pub rest : String
  pub ha : Option HaCandle
  pub is_closed : Bool

-- What is asked of a series: its symbol and its interval.
pub record Series : Type 0 where
  pub symbol : String
  pub interval : String

abbrev pub is_of : Series → Row → Bool
is_of s r = same r.symbol s.symbol && same r.interval s.interval

-- `sorted(klines, key=lambda k: int(k[0]))`, which keeps the order of equal times.
unfoldable pub insert_sorted : Raw → List Raw → List Raw
insert_sorted k [] = k ∷ []
insert_sorted k (j ∷ ks) =
    let rest = insert_sorted k ks in if ltb j.open_time k.open_time then j ∷ rest else k ∷ j ∷ ks

unfoldable pub sorted : List Raw → List Raw
sorted [] = []
sorted (k ∷ ks) = insert_sorted k (sorted ks)

abbrev pub has_ha : Row → Bool
has_ha r = elim r.ha [ none ↦ false | some c ↦ true ]

-- The later of a row and another.
abbrev pub later_of : Row → Option Row → Option Row
later_of r none = some r
later_of r (some q) = if ltb q.open_time r.open_time then some r else some q

-- `ORDER BY open_time DESC LIMIT 1`, of the rows that are asked for.
unfoldable pub newest : (Row → Bool) → List Row → Option Row
newest keep [] = none
newest keep (r ∷ rs) = let rest = newest keep rs in if keep r then later_of r rest else rest

-- `WHERE symbol = ? AND interval = ? AND open_time < ? AND ha_open IS NOT NULL`
abbrev pub is_before : Series → ℕ → Row → Bool
is_before s t r = is_of s r && (ltb r.open_time t && has_ha r)

abbrev pub ha_of : Option Row → Option HaCandle
ha_of none = none
ha_of (some r) = r.ha

-- `_get_last_ha`
unfoldable pub get_last_ha : Series → ℕ → List Row → Option HaCandle
get_last_ha s t rows = ha_of (newest (is_before s t) rows)

-- The row of a kline.
unfoldable pub row_of : Series → Option ℕ → HaCandle → Raw → Kline → Row
row_of s now ha k c = record {
  symbol = s.symbol;
  interval = s.interval;
  open_time = k.open_time;
  candle = c;
  close_time = k.close_time;
  rest = k.rest;
  ha = some ha;
  is_closed = elim now [ none ↦ true | some t ↦ leb k.close_time t ];
}

-- The rows of klines after a candle; a kline that cannot be read is left out.
unfoldable pub rows_from : Series → Option ℕ → Option HaCandle → List Raw → List Row
rows_from s now prev [] = []
rows_from s now prev (k ∷ ks) = elim k.candle [
  | none ↦ rows_from s now prev ks
  | some c ↦ row_of s now (next_candle prev c) k c ∷ rows_from s now (some (next_candle prev c)) ks
]

abbrev pub same_key : Row → Row → Bool
same_key r q = same q.symbol r.symbol && (same q.interval r.interval && q.open_time == r.open_time)

-- `INSERT … ON CONFLICT(symbol, interval, open_time) DO UPDATE`
unfoldable pub upsert : Row → List Row → List Row
upsert r [] = r ∷ []
upsert r (q ∷ rows) = let rest = upsert r rows in if same_key r q then r ∷ rows else q ∷ rest

unfoldable pub upsert_all : List Row → List Row → List Row
upsert_all [] rows = rows
upsert_all (r ∷ rs) rows = upsert_all rs (upsert r rows)

-- The rows of a batch that is sorted.
unfoldable pub batch_rows : Series → Option ℕ → List Raw → List Row → List Row
batch_rows s now [] rows = []
batch_rows s now (k ∷ ks) rows = rows_from s now (get_last_ha s k.open_time rows) (k ∷ ks)

-- How the database takes a batch: `_get_last_ha` raises, or `open_db` does, or the statement or its
-- commit, whose exception the exception zoo then takes, or the rows are written.
pub data Database : Type 0 where
  read_fails open_fails write_fails writes : Database

-- The rows are written: what is left of the table, and the number that is returned, or `none` for an
-- exception that the caller gets. Only the exceptions of the statement and its commit are caught here.
unfoldable pub write_rows : Database → List Row → List Row → List Row × Option ℕ
write_rows db [] rows = (rows, some 0)
write_rows Database.writes (r ∷ rs) rows = (upsert_all (r ∷ rs) rows, some (length (r ∷ rs)))
write_rows Database.write_fails (r ∷ rs) rows = (rows, some 0)
write_rows Database.open_fails (r ∷ rs) rows = (rows, none)
write_rows Database.read_fails (r ∷ rs) rows = (rows, none)

-- `store_klines_with_ha`: the table after it, and the number it returns, or `none` where it raises.
unfoldable pub store_klines_with_ha :
    Series → List Raw → Option ℕ → Database → List Row → List Row × Option ℕ
store_klines_with_ha s [] now db rows = (rows, some 0)
store_klines_with_ha s (k ∷ ks) now Database.read_fails rows = (rows, none)
store_klines_with_ha s (k ∷ ks) now db rows =
    write_rows db (batch_rows s now (sorted (k ∷ ks)) rows) rows

-- `ORDER BY open_time DESC`
unfoldable pub insert_newest : Row → List Row → List Row
insert_newest r [] = r ∷ []
insert_newest r (q ∷ rows) =
    let rest = insert_newest r rows in
    if ltb r.open_time q.open_time then q ∷ rest else r ∷ q ∷ rows

unfoldable pub by_newest : List Row → List Row
by_newest [] = []
by_newest (r ∷ rows) = insert_newest r (by_newest rows)

-- `get_klines`
unfoldable pub get_klines : Series → ℕ → List Row → List Row
get_klines s limit rows = first_of limit (by_newest (keep_if (is_of s) rows))

-- The klines of a series that are asked for, in percent of their closing price: the sum of the ranges, and
-- how many there are.
unfoldable pub ranges : List Row → Frac × ℕ
ranges [] = (of_ℕ 0, 0)
ranges (r ∷ rows) =
    let (sum, n) = ranges rows in
    let c = r.candle in
    if ltb 0 c.closing
    then (add (record { num = (c.high - c.low) * 100; den = c.closing }) sum, n + 1)
    else (sum, n)

-- `compute_oscillation_pct`, for prices that can be read, the highest no lower than the lowest; the
-- rounding to 2 digits is left out.
unfoldable pub compute_oscillation_pct : Series → ℕ → List Row → Frac
compute_oscillation_pct s num_candles rows =
    let asked = get_klines s num_candles rows in
    let (total, valid) = ranges asked in
    if ltb (length asked) 3
    then of_ℕ 0
    else (if ltb 0 valid then div total (of_ℕ valid) else of_ℕ 0)
