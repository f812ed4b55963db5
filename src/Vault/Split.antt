-- ===== src/Vault/Split.antt =====
-- `store_klines_with_ha` of runtime/core/telemetry_vault.py in parts and at once.
use pecunator_accu_monetas.Prelude.{
  ℕ, ◌+◌, ◌≡◌, refl, sym, ap, ◌∙◌, subst⁻¹, Option, some, List, [], ◌∷◌, ◌++◌, length, arith,
}
use pecunator_accu_monetas.Vault.Klines.{
  Raw, Row, Series, Database, get_last_ha, rows_from, upsert_all, batch_rows, sorted, write_rows,
  store_klines_with_ha,
}
use pecunator_accu_monetas.Vault.Order.{IsAscending, EndsBefore, sorted_ascending}
use pecunator_accu_monetas.Vault.Batches.{
  last_candle, chain, rows_from-append, upsert_all-append, IsAscending-parts, get_last_ha-later,
}

pub append_none : {A : Type 0} (xs : List A) → xs ++ [] ≡ xs
append_none [] = refl
append_none (x ∷ xs) = ap (λ ys. x ∷ ys) (append_none xs)

length-append : {A : Type 0} (xs ys : List A) → length (xs ++ ys) ≡ length xs + length ys
length-append [] ys = omega arith
length-append (x ∷ xs) ys = omega (arith, length-append xs ys)

module _ (s : Series) (now : Option ℕ) where
  -- What a batch writes, by a time before it.
  batch_from :
      (t : ℕ) (ks : List Raw) (rows : List Row)
      → IsAscending t ks
      → EndsBefore s t rows
      → batch_rows s now (sorted ks) rows ≡ rows_from s now (get_last_ha s t rows) ks
  unfolding batch_rows sorted rows_from
  batch_from t [] rows asc ends = refl
  batch_from t (k ∷ ks) rows asc ends =
      ap (λ js. batch_rows s now js rows) (sorted_ascending t (k ∷ ks) asc)
      ∙ ap (λ p. rows_from s now p (k ∷ ks)) (get_last_ha-later s t k.open_time rows asc.0 ends)

  all_written :
      (batch rows : List Row)
      → write_rows Database.writes batch rows ≡ (upsert_all batch rows, some (length batch))
  unfolding write_rows upsert_all
  all_written [] rows = refl
  all_written (r ∷ batch) rows = refl

  -- A database that writes takes every row of the batch.
  batch_stored :
      (ks : List Raw) (rows : List Row)
      → let batch = batch_rows s now (sorted ks) rows in
        store_klines_with_ha s ks now Database.writes rows
        ≡ (upsert_all batch rows, some (length batch))
  unfolding store_klines_with_ha sorted batch_rows upsert_all
  batch_stored [] rows = refl
  batch_stored (k ∷ ks) rows = all_written (batch_rows s now (sorted (k ∷ ks)) rows) rows

  pub stored :
      (t : ℕ) (ks : List Raw) (rows : List Row)
      → IsAscending t ks
      → EndsBefore s t rows
      → let batch = rows_from s now (get_last_ha s t rows) ks in
        store_klines_with_ha s ks now Database.writes rows
        ≡ (upsert_all batch rows, some (length batch))
  stored t ks rows asc ends =
      batch_stored ks rows
      ∙ ap (λ batch. (upsert_all batch rows, some (length batch))) (batch_from t ks rows asc ends)

  -- The second of two batches, after the first.
  stored_next :
      (t : ℕ) (ks : List Raw) (j : Raw) (js : List Raw) (rows : List Row)
      → IsAscending t (ks ++ j ∷ js)
      → EndsBefore s t rows
      → let prev = get_last_ha s t rows in
        let rows' = upsert_all (rows_from s now prev ks) rows in
        let batch = rows_from s now (last_candle prev ks) (j ∷ js) in
        store_klines_with_ha s (j ∷ js) now Database.writes rows'
        ≡ (upsert_all batch rows', some (length batch))
  unfolding batch_rows
  stored_next t ks j js rows asc ends =
      let (left, below, le, right) = IsAscending-parts t ks j js asc in
      let prev = get_last_ha s t rows in
      let rows' = upsert_all (rows_from s now prev ks) rows in
      let linked = chain s now ks t j.open_time prev rows left below le ends refl in
      batch_stored (j ∷ js) rows'
      ∙ ap
          (λ ks.
            let batch = batch_rows s now ks rows' in (upsert_all batch rows', some (length batch)))
          (sorted_ascending j.open_time (j ∷ js) right)
      ∙ ap
          (λ p.
            let batch = rows_from s now p (j ∷ js) in (upsert_all batch rows', some (length batch)))
          linked

  -- Two batches, by the table that the first leaves.
  joined :
      (t : ℕ) (ks js : List Raw) (rows : List Row)
      → IsAscending t (ks ++ js)
      → EndsBefore s t rows
      → let prev = get_last_ha s t rows in
        let first = rows_from s now prev ks in
        let rows' = upsert_all first rows in
        let next = rows_from s now (last_candle prev ks) js in
        (store_klines_with_ha s ks now Database.writes rows ≡ (rows', some (length first)))
        × (store_klines_with_ha s js now Database.writes rows'
            ≡ (upsert_all next rows', some (length next)))
  unfolding store_klines_with_ha sorted batch_rows upsert_all rows_from
  joined t ks [] rows asc ends =
      (stored t ks rows (subst⁻¹ (IsAscending t) (sym (append_none ks)) asc) ends, refl)
  joined t ks (j ∷ js) rows asc ends = (
    stored t ks rows (IsAscending-parts t ks j js asc).0 ends,
    stored_next t ks j js rows asc ends,
  )

  -- Where the database takes its rows, a series of klines in the order of time, after all that is stored of
  -- its symbol and interval, leaves the same table whether it is stored at once or in two batches, and the two write as many rows as the
  -- one: the chain of candles goes on over the end of a batch, and over klines that cannot be read.
  pub store_in_batches :
      (t : ℕ) (ks js : List Raw) (rows : List Row)
      → IsAscending t (ks ++ js)
      → EndsBefore s t rows
      → let whole = store_klines_with_ha s (ks ++ js) now Database.writes rows in
        let first = store_klines_with_ha s ks now Database.writes rows in
        let second = store_klines_with_ha s js now Database.writes first.0 in
        (whole.0 ≡ second.0)
        × ((n : ℕ) × (m : ℕ) × (first.1 ≡ some n) × (second.1 ≡ some m) × (whole.1 ≡ some (n + m)))
  store_in_batches t ks js rows asc ends =
      let prev = get_last_ha s t rows in
      let first = rows_from s now prev ks in
      let rows' = upsert_all first rows in
      let next = rows_from s now (last_candle prev ks) js in
      let (one, two) = joined t ks js rows asc ends in
      let whole = stored t (ks ++ js) rows asc ends in
      let parts = rows_from-append s now prev ks js in
      let after : store_klines_with_ha s js now Database.writes
            (store_klines_with_ha s ks now Database.writes rows).0
          ≡ (upsert_all next rows', some (length next)) =
        ap (λ r. store_klines_with_ha s js now Database.writes r.0) one ∙ two in
      (
        ap (λ r. r.0) whole
            ∙ ap (λ b. upsert_all b rows) parts
            ∙ upsert_all-append first next rows
            ∙ sym (ap (λ r. r.0) after),
        (
          length first,
          length next,
          ap (λ r. r.1) one,
          ap (λ r. r.1) after,
          ap (λ r. r.1) whole ∙ ap some (ap length parts ∙ length-append first next),
        ),
      )
