-- ===== src/Vault/Order.antt =====
-- Rows and klines of runtime/core/telemetry_vault.py in the order of time.
use pecunator_accu_monetas.Prelude.{
  ℕ, suc, ◌≤◌, ◌<◌, ◌≡◌, refl, ap, ◌∙◌, Bool, true, false, ◌&&◌, ◌==◌, Bool-cases, inl, inr, some,
  List, [], ◌∷◌, ◌++◌, ltb, All, All-map, arith,
}
use pecunator_accu_monetas.Prelude.Dict.{same}
use pecunator_accu_monetas.Vault.Klines.{
  Raw, Row, Series, is_of, has_ha, newest, is_before, same_key, upsert, insert_sorted, sorted,
}

-- Klines in the order of time, from a time on.
abbrev pub IsAscending : ℕ → List Raw → Type 0
IsAscending t [] = Unit
IsAscending t (k ∷ ks) = (t ≤ k.open_time) × IsAscending (suc k.open_time) ks

-- The rows of a series end before a time.
abbrev pub EndsBefore : Series → ℕ → List Row → Type 0
EndsBefore s t rows = All (λ r. is_of s r ≡ true → r.open_time < t) rows

insert_first :
    (k : Raw) (ks : List Raw) → IsAscending (suc k.open_time) ks → insert_sorted k ks ≡ k ∷ ks
unfolding insert_sorted
insert_first k [] h = refl
insert_first k (j ∷ ks) (h, hs) =
    let after : ltb j.open_time k.open_time ≡ false = ground arith in rw after refl

pub sorted_ascending : (t : ℕ) (ks : List Raw) → IsAscending t ks → sorted ks ≡ ks
unfolding sorted
sorted_ascending t [] h = refl
sorted_ascending t (k ∷ ks) (h, hs) =
    rw (sorted_ascending (suc k.open_time) ks hs) (insert_first k ks hs)

key_apart : (a b : Bool) (n m : ℕ) → ((a && b) ≡ true → n < m) → (a && (b && n == m)) ≡ false
key_apart true true n m h = let less = h refl in ground arith
key_apart true false n m h = refl
key_apart false b n m h = refl

same_before :
    (a c : Bool) (n t t' : ℕ)
    → t ≤ t'
    → (a ≡ true → n < t)
    → (a && (ltb n t' && c)) ≡ (a && (ltb n t && c))
same_before true c n t t' h before = let less = before refl in ground arith
same_before false c n t t' h before = refl

earlier_of_two :
    (a c : Bool) (n t m : ℕ) → (a ≡ true → n < m) → (a && (ltb n t && c)) ≡ true → ltb m n ≡ false
earlier_of_two true c n t m h before = let less = h refl in ground arith
earlier_of_two false c n t m h before = ground arith

-- A row of a new time stands at the end.
pub upsert_new :
    (s : Series) (r : Row) (rows : List Row)
    → r.symbol ≡ s.symbol
    → r.interval ≡ s.interval
    → EndsBefore s r.open_time rows
    → upsert r rows ≡ rows ++ r ∷ []
unfolding upsert
upsert_new s r [] e f h = refl
upsert_new s r (q ∷ rows) e f (h, hs) =
    let rest = upsert_new s r rows e f hs in
    let other : same_key r q ≡ false =
      ap (λ x. same q.symbol x && (same q.interval r.interval && q.open_time == r.open_time)) e
      ∙ ap (λ x. same q.symbol s.symbol && (same q.interval x && q.open_time == r.open_time)) f
      ∙ key_apart (same q.symbol s.symbol) (same q.interval s.interval) q.open_time r.open_time h in
    rw (other, rest) refl

-- A later row of the series is the newest.
pub newest_last :
    (s : Series) (t : ℕ) (r : Row) (rows : List Row)
    → is_before s t r ≡ true
    → EndsBefore s r.open_time rows
    → newest (is_before s t) (rows ++ r ∷ []) ≡ some r
unfolding newest
newest_last s t r [] new h = rw new refl
newest_last s t r (q ∷ rows) new (h, hs) =
    let rest = newest_last s t r rows new hs in
    elim (Bool-cases (is_before s t q)) [
      | inl before ↦
          let earlier = earlier_of_two (is_of s q) (has_ha q) q.open_time t r.open_time h before in
          rw (before, rest, earlier) refl
      | inr not_before ↦ rw (not_before, rest) refl
    ]

pub EndsBefore-later :
    (s : Series) (t t' : ℕ) (rows : List Row) → t ≤ t' → EndsBefore s t rows → EndsBefore s t' rows
EndsBefore-later s t t' rows h = All-map _ _ rows (λ r before of. omega (arith, before of, h))

pub EndsBefore-append :
    (s : Series) (t : ℕ) (r : Row) (rows : List Row)
    → r.open_time < t
    → EndsBefore s t rows
    → EndsBefore s t (rows ++ r ∷ [])
EndsBefore-append s t r [] h hs = (λ of. h, tt)
EndsBefore-append s t r (q ∷ rows) h (before, hs) = (before, EndsBefore-append s t r rows h hs)

-- Beyond the end of a series, its last candle is the same at any time.
pub newest-later :
    (s : Series) (t t' : ℕ) (rows : List Row)
    → t ≤ t'
    → EndsBefore s t rows
    → newest (is_before s t') rows ≡ newest (is_before s t) rows
unfolding newest
newest-later s t t' [] h hs = refl
newest-later s t t' (q ∷ rows) h (before, hs) =
    let rest = newest-later s t t' rows h hs in
    let same_answer : is_before s t' q ≡ is_before s t q =
      same_before (is_of s q) (has_ha q) q.open_time t t' h before in
    rw (same_answer, rest) refl
