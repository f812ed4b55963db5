-- ===== src/Vault/Bootstrap.antt =====
-- The first load of a series by runtime/core/kline_ingestion.py when the database fails.
use pecunator_accu_monetas.Prelude.{
  ℕ, ◌≡◌, refl, ap, ◌∙◌, subst⁻¹, true, false, Bool-cases, inl, inr, Option, none, some, List, [],
  ◌∷◌, if◌then◌else◌, arith,
}
use pecunator_accu_monetas.Prelude.Dict.{same_iff_refl}
use pecunator_accu_monetas.Vault.Klines.{
  Raw, Row, Series, Database, batch_rows, sorted, write_rows, store_klines_with_ha,
}
use pecunator_accu_monetas.Vault.Ingestion.{
  Ingestion, Answer, Stored, is_bootstrapped, limit_of, mark, keep_klines, fetch_one,
}

-- A later fetch of some series.
pub record Fetch : Type 0 where
  pub client : Series → ℕ → Answer
  pub series : Series
  pub now : Option ℕ
  pub database : Database

abbrev pub fetch_all : List Fetch → Stored → Stored
fetch_all [] d = d
fetch_all (f ∷ fs) d = fetch_all fs (fetch_one f.client f.series f.now f.database d)

-- The series counts as loaded, and only so many candles are asked for.
abbrev IsDone : Series → ℕ → Stored → Type 0
IsDone s tail d =
    (is_bootstrapped s d.ingestion.bootstrapped ≡ true) × (d.ingestion.refresh_tail_candles ≡ tail)

also_done :
    (s b : Series) (bs : List Series)
    → is_bootstrapped s bs ≡ true
    → is_bootstrapped s (b ∷ bs) ≡ true
unfolding is_bootstrapped
also_done s b bs h = ground arith

done_at_once : (s : Series) (bs : List Series) → is_bootstrapped s (s ∷ bs) ≡ true
unfolding is_bootstrapped
done_at_once s bs =
    let symbol = same_iff_refl s.symbol in let interval = same_iff_refl s.interval in ground arith

limit_done :
    (s : Series) (tail : ℕ) (i : Ingestion)
    → is_bootstrapped s i.bootstrapped ≡ true
    → i.refresh_tail_candles ≡ tail
    → limit_of s i ≡ tail
unfolding limit_of
limit_done s tail i done size = ground arith

fetched :
    (client : Series → ℕ → Answer) (s : Series) (now : Option ℕ) (k : Raw) (ks : List Raw)
    (d : Stored)
    → is_bootstrapped s d.ingestion.bootstrapped ≡ false
    → client s d.ingestion.bootstrap_candles ≡ Answer.klines (k ∷ ks)
    → fetch_one client s now Database.write_fails d
      ≡ keep_klines s now Database.write_fails (k ∷ ks) d
unfolding fetch_one limit_of
fetched client s now k ks d new given =
    let asked : client s (limit_of s d.ingestion) ≡ Answer.klines (k ∷ ks) = simp (new) given in
    rw (fetch_one, asked) refl

nothing_written :
    (batch rows : List Row) → write_rows Database.write_fails batch rows ≡ (rows, some 0)
unfolding write_rows
nothing_written [] rows = refl
nothing_written (r ∷ batch) rows = refl

-- The series is marked and the table is as it was.
only_marked :
    (s : Series) (now : Option ℕ) (k : Raw) (ks : List Raw) (d : Stored)
    → keep_klines s now Database.write_fails (k ∷ ks) d ≡ mark s d d.rows (some 0)
unfolding keep_klines store_klines_with_ha
only_marked s now k ks d =
    ap (λ r. mark s d r.0 r.1) (nothing_written (batch_rows s now (sorted (k ∷ ks)) d.rows) d.rows)

first-IsDone :
    (s : Series) (now : Option ℕ) (k : Raw) (ks : List Raw) (d : Stored)
    → is_bootstrapped s d.ingestion.bootstrapped ≡ false
    → IsDone s d.ingestion.refresh_tail_candles (keep_klines s now Database.write_fails (k ∷ ks) d)
unfolding mark
first-IsDone s now k ks d new =
    let bs = d.ingestion.bootstrapped in
    subst⁻¹ (IsDone s d.ingestion.refresh_tail_candles) (only_marked s now k ks d) (
      subst⁻¹ (λ b. is_bootstrapped s (if b then bs else s ∷ bs) ≡ true) new (done_at_once s bs),
      refl,
    )

kept_rows :
    (s : Series) (now : Option ℕ) (k : Raw) (ks : List Raw) (d : Stored)
    → (keep_klines s now Database.write_fails (k ∷ ks) d).rows ≡ d.rows
unfolding mark
kept_rows s now k ks d = ap (λ e. e.rows) (only_marked s now k ks d)

kept_done :
    (s b : Series) (bs : List Series)
    → is_bootstrapped s bs ≡ true
    → is_bootstrapped s (if is_bootstrapped b bs then bs else b ∷ bs) ≡ true
kept_done s b bs h = elim (Bool-cases (is_bootstrapped b bs)) [
  | inl known ↦ subst⁻¹ (λ k. is_bootstrapped s (if k then bs else b ∷ bs) ≡ true) known h
  | inr new ↦
      subst⁻¹ (λ k. is_bootstrapped s (if k then bs else b ∷ bs) ≡ true) new (also_done s b bs h)
]

mark-IsDone :
    (s b : Series) (tail : ℕ) (d : Stored) (rows : List Row) (written : Option ℕ)
    → IsDone s tail d
    → IsDone s tail (mark b d rows written)
unfolding mark
mark-IsDone s b tail d rows none h = h
mark-IsDone s b tail d rows (some n) (done, size) =
    (kept_done s b d.ingestion.bootstrapped done, size)

keep_klines-IsDone :
    (s b : Series) (tail : ℕ) (now : Option ℕ) (db : Database) (ks : List Raw) (d : Stored)
    → IsDone s tail d
    → IsDone s tail (keep_klines b now db ks d)
unfolding keep_klines
keep_klines-IsDone s b tail now db [] d h = h
keep_klines-IsDone s b tail now db (k ∷ ks) d h = mark-IsDone s b tail d _ _ h

fetch_one-IsDone :
    (s b : Series) (tail : ℕ) (client : Series → ℕ → Answer) (now : Option ℕ) (db : Database)
    (d : Stored)
    → IsDone s tail d
    → IsDone s tail (fetch_one client b now db d)
unfolding fetch_one
fetch_one-IsDone s b tail client now db d h =
    elim (client b (limit_of b d.ingestion))
      as (λ a.
        IsDone s tail
          (elim a [ Answer.raised ↦ d | Answer.klines ks ↦ keep_klines b now db ks d ])) [
            | Answer.raised ↦ h
            | Answer.klines ks ↦ keep_klines-IsDone s b tail now db ks d h
          ]

fetch_all-IsDone :
    (s : Series) (tail : ℕ) (fs : List Fetch) (d : Stored)
    → IsDone s tail d
    → IsDone s tail (fetch_all fs d)
fetch_all-IsDone s tail [] d h = h
fetch_all-IsDone s tail (f ∷ fs) d h =
    fetch_all-IsDone s tail fs (fetch_one f.client f.series f.now f.database d)
      (fetch_one-IsDone s f.series tail f.client f.now f.database d h)

-- When the statement that writes the rows, or its commit, fails at the first load of a series, and the
-- exception zoo takes the exception, nothing is stored and the series counts as loaded: whatever is
-- fetched afterwards, and however the database takes it, only the few candles of a refresh are ever
-- asked for it.
pub failed_bootstrap_is_final :
    (client : Series → ℕ → Answer) (s : Series) (now : Option ℕ) (k : Raw) (ks : List Raw)
    (d : Stored) (fs : List Fetch)
    → is_bootstrapped s d.ingestion.bootstrapped ≡ false
    → client s d.ingestion.bootstrap_candles ≡ Answer.klines (k ∷ ks)
    → let d' = fetch_one client s now Database.write_fails d in
      (d'.rows ≡ d.rows)
      × (limit_of s (fetch_all fs d').ingestion ≡ d.ingestion.refresh_tail_candles)
failed_bootstrap_is_final client s now k ks d fs new given =
    let tail = d.ingestion.refresh_tail_candles in
    let first = fetched client s now k ks d new given in
    let (done, size) : IsDone s tail
        (fetch_all fs (fetch_one client s now Database.write_fails d)) =
      fetch_all-IsDone s tail fs (fetch_one client s now Database.write_fails d)
        (subst⁻¹ (IsDone s tail) first (first-IsDone s now k ks d new)) in
    (ap (λ e. e.rows) first ∙ kept_rows s now k ks d, limit_done s tail _ done size)
