-- ===== src/StateWal/Tests.antt =====
-- A snapshot of runtime/core/state_wal.py over numbers, written as the payload itself.
use pecunator_accu_monetas.Prelude.{ℕ, ◌≡◌, refl, true, some, [], ◌∷◌, if◌then◌else◌}
use pecunator_accu_monetas.Prelude.Dict.{Dict, lookup}
use pecunator_accu_monetas.StateWal.Snapshot.{
  persisted_fields, Wal, read, persist, hydrate, last_snapshot_age_seconds,
}
use pecunator_accu_monetas.StateWal.RoundTrip.{is_listed, stored_as, hydrate-persist}

abbrev same_value : ℕ → ℕ
same_value v = v

abbrev dumps : Dict ℕ → Dict ℕ
dumps = stored_as same_value

abbrev saved : Dict ℕ
saved = ("connected", 1) ∷ ("ticker", 5) ∷ []

abbrev empty : Wal (Dict ℕ)
empty = Wal.no_file

age_run : last_snapshot_age_seconds 12 (persist same_value 0 dumps true 10 saved empty) ≡ some 2
unfolding last_snapshot_age_seconds persist
age_run = refl

hydrate-persist_example :
    let (back, found) =
      hydrate some (("ticker", 8) ∷ []) (persist same_value 0 dumps true 10 saved empty) in
    (found ≡ true)
    × (lookup "connected" back ≡ (
        if is_listed "connected" persisted_fields
        then some (same_value (read same_value 0 "connected" saved))
        else lookup "connected" (("ticker", 8) ∷ [])))
hydrate-persist_example =
    hydrate-persist same_value same_value 0 dumps some (λ p. refl) 10 saved (("ticker", 8) ∷ [])
      empty "connected"
