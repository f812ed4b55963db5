-- ===== src/Vault/Chain.antt =====
-- The candles that runtime/core/telemetry_vault.py stores, against those of
-- runtime/modules/trend_signal.py.
use pecunator_accu_monetas.Prelude.{
  ℕ, suc, ◌≡◌, refl, sym, ap, ◌∙◌, Option, none, some, List, [], ◌∷◌, ◌++◌, map, arith,
}
use pecunator_accu_monetas.Trend.Candles.{Kline, HaCandle, next_candle, candles_after}
use pecunator_accu_monetas.Vault.Klines.{
  Raw, Row, Series, Database, get_last_ha, row_of, rows_from, upsert, upsert_all,
  store_klines_with_ha,
}
use pecunator_accu_monetas.Vault.Order.{IsAscending, EndsBefore, EndsBefore-later}
use pecunator_accu_monetas.Vault.Batches.{rows_with, rows_with_eq, upsert_row, append_row}
use pecunator_accu_monetas.Vault.Split.{append_none, stored}

abbrev pub with_kline : Option Kline → List Kline → List Kline
with_kline none cs = cs
with_kline (some c) cs = c ∷ cs

-- The klines that can be read.
abbrev pub readable : List Raw → List Kline
readable [] = []
readable (k ∷ ks) = with_kline k.candle (readable ks)

append_one : (xs : List Row) (r : Row) (ys : List Row) → (xs ++ r ∷ []) ++ ys ≡ xs ++ r ∷ ys
append_one [] r ys = refl
append_one (x ∷ xs) r ys = ap (λ rows. x ∷ rows) (append_one xs r ys)

row_of-ha :
    (s : Series) (now : Option ℕ) (ha : HaCandle) (k : Raw) (c : Kline)
    → (row_of s now ha k c).ha ≡ some ha
unfolding row_of
row_of-ha s now ha k c = refl

module _ (s : Series) (now : Option ℕ) where
  -- The rows of a batch stand at the end of the table.
  upsert_all-new :
      (t : ℕ) (prev : Option HaCandle) (ks : List Raw) (rows : List Row)
      → IsAscending t ks
      → EndsBefore s t rows
      → upsert_all (rows_from s now prev ks) rows ≡ rows ++ rows_from s now prev ks
  unfolding upsert_all rows_from
  upsert_all-new t prev [] rows asc ends = sym (append_none rows)
  upsert_all-new t prev (k ∷ ks) rows (from, asc) ends =
      elim k.candle
        as (λ o.
          upsert_all (rows_with s now prev k ks o) rows ≡ rows ++ rows_with s now prev k ks o) [
            | none ↦
                upsert_all-new (suc k.open_time) prev ks rows asc
                  (EndsBefore-later s t (suc k.open_time) rows (omega (arith, from)) ends)
            | some c ↦
                let ha = next_candle prev c in
                let r = row_of s now ha k c in
                let next = rows_from s now (some ha) ks in
                let added : upsert r rows ≡ rows ++ r ∷ [] =
                  upsert_row s now ha k c rows (EndsBefore-later s t k.open_time rows from ends) in
                ap (upsert_all next) added
                ∙ upsert_all-new (suc k.open_time) (some ha) ks (rows ++ r ∷ []) asc (
                    append_row s now ha k c rows
                      (EndsBefore-later s t (suc k.open_time) rows (omega (arith, from)) ends))
                ∙ append_one rows r next
          ]

  candles_with :
      (o : Option Kline) (prev : Option HaCandle) (k : Raw) (ks : List Raw)
      → ((p : Option HaCandle)
          → map (λ r. r.ha) (rows_from s now p ks) ≡ map some (candles_after p (readable ks)))
      → map (λ r. r.ha) (rows_with s now prev k ks o)
        ≡ map some (candles_after prev (with_kline o (readable ks)))
  unfolding candles_after
  candles_with none prev k ks h = h prev
  candles_with (some c) prev k ks h =
      let ha = next_candle prev c in
      ap (λ h. h ∷ map (λ r. r.ha) (rows_from s now (some ha) ks)) (row_of-ha s now ha k c)
      ∙ ap (λ cs. some ha ∷ cs) (h (some ha))

  rows_from_candles :
      (ks : List Raw) (prev : Option HaCandle)
      → map (λ r. r.ha) (rows_from s now prev ks) ≡ map some (candles_after prev (readable ks))
  unfolding rows_from candles_after
  rows_from_candles [] prev = refl
  rows_from_candles (k ∷ ks) prev =
      ap (map (λ r. r.ha)) (rows_with_eq s now prev k ks)
      ∙ candles_with k.candle prev k ks (rows_from_candles ks)

  -- Where the database takes the rows, klines in the order of time, after all that is stored of their symbol
  -- and interval, are stored as new rows at the end of the table, and the candles in these rows are those that the trend module computes of
  -- the klines that can be read, from the last stored candle on.
  pub stored_candles :
      (t : ℕ) (ks : List Raw) (rows : List Row)
      → IsAscending t ks
      → EndsBefore s t rows
      → (new : List Row) × ((store_klines_with_ha s ks now Database.writes rows).0 ≡ rows ++ new)
        × (map (λ r. r.ha) new ≡ map some (candles_after (get_last_ha s t rows) (readable ks)))
  stored_candles t ks rows asc ends =
      let prev = get_last_ha s t rows in
      (
        rows_from s now prev ks,
        ap (λ r. r.0) (stored s now t ks rows asc ends) ∙ upsert_all-new t prev ks rows asc ends,
        rows_from_candles ks prev,
      )
