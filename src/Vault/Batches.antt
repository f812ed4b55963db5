-- ===== src/Vault/Batches.antt =====
-- The batches of runtime/core/telemetry_vault.py: a series that is stored in parts has the candles of one
-- that is stored at once.
use pecunator_accu_monetas.Prelude.{
  ℕ, suc, ◌≤◌, ◌<◌, ◌≡◌, refl, ap, ◌∙◌, subst⁻¹, true, Option, none, some, List, [], ◌∷◌, ◌++◌, All,
  arith,
}
use pecunator_accu_monetas.Prelude.Dict.{same_iff_refl}
use pecunator_accu_monetas.Trend.Candles.{Kline, HaCandle, next_candle}
use pecunator_accu_monetas.Vault.Order.{
  IsAscending, EndsBefore, upsert_new, newest_last, EndsBefore-later, EndsBefore-append,
  newest-later,
}
use pecunator_accu_monetas.Vault.Klines.{
  Raw, Row, Series, ha_of, is_before, get_last_ha, row_of, rows_from, upsert, upsert_all,
}

-- The candle after klines.
abbrev pub last_candle : Option HaCandle → List Raw → Option HaCandle
last_candle prev [] = prev
last_candle prev (k ∷ ks) = elim k.candle [
  | none ↦ last_candle prev ks
  | some c ↦ last_candle (some (next_candle prev c)) ks
]

-- The rows and the last candle, by what is read of the first kline.
abbrev pub rows_with :
    Series → Option ℕ → Option HaCandle → Raw → List Raw → Option Kline → List Row
rows_with s now prev k ks none = rows_from s now prev ks
rows_with s now prev k ks (some c) =
    row_of s now (next_candle prev c) k c ∷ rows_from s now (some (next_candle prev c)) ks

abbrev candle_with : Option HaCandle → List Raw → Option Kline → Option HaCandle
candle_with prev ks none = last_candle prev ks
candle_with prev ks (some c) = last_candle (some (next_candle prev c)) ks

pub rows_with_eq :
    (s : Series) (now : Option ℕ) (prev : Option HaCandle) (k : Raw) (ks : List Raw)
    → rows_from s now prev (k ∷ ks) ≡ rows_with s now prev k ks k.candle
unfolding rows_from
rows_with_eq s now prev k ks = refl

-- Below a time.
abbrev pub AreBelow : ℕ → List Raw → Type 0
AreBelow t ks = All (λ k. k.open_time < t) ks

pub get_last_ha-later :
    (s : Series) (t t' : ℕ) (rows : List Row)
    → t ≤ t'
    → EndsBefore s t rows
    → get_last_ha s t' rows ≡ get_last_ha s t rows
unfolding get_last_ha
get_last_ha-later s t t' rows le ends = ap ha_of (newest-later s t t' rows le ends)

pub upsert_row :
    (s : Series) (now : Option ℕ) (ha : HaCandle) (k : Raw) (c : Kline) (rows : List Row)
    → EndsBefore s k.open_time rows
    → upsert (row_of s now ha k c) rows ≡ rows ++ row_of s now ha k c ∷ []
unfolding row_of
upsert_row s now ha k c rows ends = upsert_new s (row_of s now ha k c) rows refl refl ends

pub append_row :
    (s : Series) (now : Option ℕ) (ha : HaCandle) (k : Raw) (c : Kline) (rows : List Row)
    → EndsBefore s (suc k.open_time) rows
    → EndsBefore s (suc k.open_time) (rows ++ row_of s now ha k c ∷ [])
unfolding row_of
append_row s now ha k c rows ends =
    EndsBefore-append s (suc k.open_time) (row_of s now ha k c) rows (omega arith) ends

new_row_last :
    (s : Series) (now : Option ℕ) (ha : HaCandle) (k : Raw) (c : Kline) (rows : List Row)
    → EndsBefore s k.open_time rows
    → get_last_ha s (suc k.open_time) (rows ++ row_of s now ha k c ∷ []) ≡ some ha
unfolding get_last_ha row_of
new_row_last s now ha k c rows h =
    let r = row_of s now ha k c in
    let in_series = same_iff_refl s.symbol in
    let in_interval = same_iff_refl s.interval in
    let before : is_before s (suc k.open_time) r ≡ true = ground arith in
    ap ha_of (newest_last s (suc k.open_time) r rows before h)

module _ (s : Series) (now : Option ℕ) where
  -- The last candle of a series after a batch is the last of its chain.
  pub chain :
      (ks : List Raw) (t t' : ℕ) (prev : Option HaCandle) (rows : List Row)
      → IsAscending t ks
      → AreBelow t' ks
      → t ≤ t'
      → EndsBefore s t rows
      → get_last_ha s t rows ≡ prev
      → get_last_ha s t' (upsert_all (rows_from s now prev ks) rows) ≡ last_candle prev ks
  unfolding upsert_all rows_from
  chain [] t t' prev rows asc below le ends at = get_last_ha-later s t t' rows le ends ∙ at
  chain (k ∷ ks) t t' prev rows (from, asc) (lt, below) le ends at =
      let ends' = EndsBefore-later s t k.open_time rows from ends in
      let ends'' = EndsBefore-later s t (suc k.open_time) rows (omega (arith, from)) ends in
      elim k.candle
        as (λ o.
          get_last_ha s t' (upsert_all (rows_with s now prev k ks o) rows)
          ≡ candle_with prev ks o) [
            | none ↦
                chain ks (suc k.open_time) t' prev rows asc below (omega (arith, lt)) ends''
                  (get_last_ha-later s t (suc k.open_time) rows (omega (arith, from)) ends ∙ at)
            | some c ↦
                let ha = next_candle prev c in
                let r = row_of s now ha k c in
                let added : upsert r rows ≡ rows ++ r ∷ [] = upsert_row s now ha k c rows ends' in
                subst⁻¹
                  (λ q.
                    get_last_ha s t' (upsert_all (rows_from s now (some ha) ks) q)
                    ≡ last_candle (some ha) ks)
                  added
                  (chain ks (suc k.open_time) t' (some ha) (rows ++ r ∷ []) asc below
                    (omega (arith, lt)) (append_row s now ha k c rows ends'')
                    (new_row_last s now ha k c rows ends'))
          ]

  pub rows_from-append :
      (prev : Option HaCandle) (ks js : List Raw)
      → rows_from s now prev (ks ++ js)
        ≡ rows_from s now prev ks ++ rows_from s now (last_candle prev ks) js
  unfolding rows_from
  rows_from-append prev [] js = refl
  rows_from-append prev (k ∷ ks) js =
      elim k.candle
        as (λ o.
          rows_with s now prev k (ks ++ js) o
          ≡ rows_with s now prev k ks o ++ rows_from s now (candle_with prev ks o) js) [
            | none ↦ rows_from-append prev ks js
            | some c ↦
                ap (λ rows. row_of s now (next_candle prev c) k c ∷ rows)
                  (rows_from-append (some (next_candle prev c)) ks js)
          ]

pub upsert_all-append :
    (rs qs rows : List Row) → upsert_all (rs ++ qs) rows ≡ upsert_all qs (upsert_all rs rows)
unfolding upsert_all
upsert_all-append [] qs rows = refl
upsert_all-append (r ∷ rs) qs rows = upsert_all-append rs qs (upsert r rows)

-- The parts of klines in the order of time.
pub IsAscending-parts :
    (t : ℕ) (ks : List Raw) (j : Raw) (js : List Raw)
    → IsAscending t (ks ++ j ∷ js)
    → IsAscending t ks
      × AreBelow j.open_time ks
      × (t ≤ j.open_time)
      × IsAscending j.open_time (j ∷ js)
IsAscending-parts t [] j js (from, asc) = (tt, tt, from, (omega arith, asc))
IsAscending-parts t (k ∷ ks) j js (from, asc) =
    let (left, below, le, right) = IsAscending-parts (suc k.open_time) ks j js asc in
    ((from, left), (omega (arith, le), below), omega (arith, from, le), right)
