-- ===== src/Vault/Ingestion.antt =====
-- `KlineIngestionService` of runtime/core/kline_ingestion.py over the telemetry vault: the fetches of one tick.
-- The client of the exchange is an argument; the fetches of a tick, which the source starts
-- together, are taken one after the other.
use pecunator_accu_monetas.Prelude.{
  ℕ, Bool, false, ◌&&◌, ◌||◌, Option, none, some, List, [], ◌∷◌, if◌then◌else◌,
}
use pecunator_accu_monetas.Prelude.Dict.{same}
use pecunator_accu_monetas.Vault.Klines.{Raw, Row, Series, Database, store_klines_with_ha}

pub record Ingestion : Type 0 where
  pub bootstrap_candles : ℕ
  pub refresh_tail_candles : ℕ
  pub bootstrapped : List Series

-- `__init__`
unfoldable pub init : Ingestion
init = record { bootstrap_candles = 500; refresh_tail_candles = 3; bootstrapped = [] }

abbrev pub same_series : Series → Series → Bool
same_series a b = same a.symbol b.symbol && same a.interval b.interval

-- `(sym, iv) in self._bootstrapped`
unfoldable pub is_bootstrapped : Series → List Series → Bool
is_bootstrapped s [] = false
is_bootstrapped s (b ∷ bs) = same_series b s || is_bootstrapped s bs

-- The limit that is asked for.
unfoldable pub limit_of : Series → Ingestion → ℕ
limit_of s i =
    if is_bootstrapped s i.bootstrapped then i.refresh_tail_candles else i.bootstrap_candles

-- The answer of the client: it raises, or gives klines.
pub data Answer : Type 0 where
  raised : Answer
  klines : List Raw → Answer

pub record Stored : Type 0 where
  pub ingestion : Ingestion
  pub rows : List Row

-- What follows the store: the series is marked, unless the store raised.
unfoldable pub mark : Series → Stored → List Row → Option ℕ → Stored
mark s d rows none = record d { rows = rows }
mark s d rows (some written) =
    let bs = d.ingestion.bootstrapped in
    record {
      ingestion = record d.ingestion { bootstrapped = if is_bootstrapped s bs then bs else s ∷ bs };
      rows = rows;
    }

-- What is done with klines, if there are any.
unfoldable pub keep_klines : Series → Option ℕ → Database → List Raw → Stored → Stored
keep_klines s now db [] d = d
keep_klines s now db (k ∷ ks) d =
    let (rows, written) = store_klines_with_ha s (k ∷ ks) now db d.rows in mark s d rows written

-- `_fetch_one`, with how the database of the vault takes the klines.
unfoldable pub fetch_one : (Series → ℕ → Answer) → Series → Option ℕ → Database → Stored → Stored
fetch_one client s now db d = elim (client s (limit_of s d.ingestion)) [
  | Answer.raised ↦ d
  | Answer.klines ks ↦ keep_klines s now db ks d
]
