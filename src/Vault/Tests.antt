-- ===== src/Vault/Tests.antt =====
-- Batches of one series for runtime/core/telemetry_vault.py.
use pecunator_accu_monetas.Prelude.{
  ℕ, ◌+◌, ◌≡◌, refl, Bool, true, false, Option, none, some, List, [], ◌∷◌, ◌++◌, map, arith,
}
use pecunator_accu_monetas.Trend.Candles.{Kline, candles_after}
use pecunator_accu_monetas.Vault.Klines.{
  Raw, Row, Series, Database, get_last_ha, row_of, rows_from, upsert, upsert_all, batch_rows,
  insert_sorted, sorted, newest, write_rows, store_klines_with_ha, get_klines, by_newest,
  insert_newest,
}
use pecunator_accu_monetas.Vault.Order.{IsAscending}
use pecunator_accu_monetas.Vault.Split.{store_in_batches}
use pecunator_accu_monetas.Vault.Ingestion
use pecunator_accu_monetas.Vault.Ingestion.{Answer, Stored, is_bootstrapped, limit_of, fetch_one}
use pecunator_accu_monetas.Vault.Bootstrap.{Fetch, fetch_all, failed_bootstrap_is_final}
use pecunator_accu_monetas.Vault.Chain.{readable, stored_candles}

abbrev series : Series
series = record { symbol = "BTCUSDT"; interval = "1h" }

abbrev raw : ℕ → Option Kline → Raw
raw at c = record { open_time = at; candle = c; close_time = at + 59; rest = "" }

abbrev rise : Kline
rise = record { opening = 10; high = 40; low = 10; closing = 20 }

abbrev fall : Kline
fall = record { opening = 40; high = 40; low = 16; closing = 16 }

abbrev morning : List Raw
morning = raw 60 (some rise) ∷ raw 120 none ∷ []

abbrev evening : List Raw
evening = raw 180 (some fall) ∷ []

ascending : IsAscending 0 (morning ++ evening)
ascending = (omega arith, (omega arith, (omega arith, tt)))

store_in_batches_example :
    let whole = store_klines_with_ha series (morning ++ evening) (some 200) Database.writes [] in
    let first = store_klines_with_ha series morning (some 200) Database.writes [] in
    let second = store_klines_with_ha series evening (some 200) Database.writes first.0 in
    (whole.0 ≡ second.0)
    × ((n : ℕ) × (m : ℕ) × (first.1 ≡ some n) × (second.1 ≡ some m) × (whole.1 ≡ some (n + m)))
store_in_batches_example = store_in_batches series (some 200) 0 morning evening [] ascending tt

stored_candles_example :
    (new : List Row) × ((store_klines_with_ha series (morning ++ evening) none Database.writes []).0
      ≡ [] ++ new)
    × (map (λ r. r.ha) new
        ≡ map some (candles_after (get_last_ha series 0 []) (readable (morning ++ evening))))
stored_candles_example = stored_candles series none 0 (morning ++ evening) [] ascending tt

-- The kline that cannot be read is left out, and the last one is not closed yet.
stored_run :
    map {B = ℕ × Bool}
      (λ r. (r.open_time, r.is_closed))
      (get_klines series 5
        (store_klines_with_ha series (morning ++ evening) (some 200) Database.writes []).0)
    ≡ (180, false) ∷ (60, true) ∷ []
unfolding store_klines_with_ha write_rows sorted insert_sorted batch_rows rows_from row_of
    upsert_all upsert get_last_ha newest get_klines by_newest insert_newest
stored_run = refl

-- A client that always has the same klines, and one that has none at first.
abbrev steady : Series → ℕ → Answer
steady s limit = Answer.klines (morning ++ evening)

abbrev later_fetches : List Fetch
later_fetches =
    record { client = steady; series = series; now = none; database = Database.writes }
    ∷ record {
      client = λ s limit. Answer.raised;
      series = series;
      now = none;
      database = Database.writes;
    }
    ∷ []

abbrev started : Stored
started = record { ingestion = Ingestion.init; rows = [] }

failed_bootstrap_is_final_example :
    let d = fetch_one steady series none Database.write_fails started in
    (d.rows ≡ []) × (limit_of series (fetch_all later_fetches d).ingestion ≡ 3)
unfolding Ingestion.init is_bootstrapped
failed_bootstrap_is_final_example =
    failed_bootstrap_is_final steady series none (raw 60 (some rise)) (raw 120 none ∷ evening)
      started later_fetches refl refl
