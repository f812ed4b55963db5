-- ===== src/Zoo/Tests.antt =====
-- Registrations of runtime/core/exception_zoo.py.
use pecunator_accu_monetas.Prelude.{ℕ, ◌+◌, ◌≡◌, refl, false, not, none, some, List, [], ◌∷◌}
use pecunator_accu_monetas.Prelude.Codes.{find, same_codes}
use pecunator_accu_monetas.BudgetGuard.{codes}
use pecunator_accu_monetas.Zoo.Registry.{
  Entry, Zoo, Report, Database, init, fingerprint, is_known, new_entry, register,
}
use pecunator_accu_monetas.Zoo.Hits.{Call, run, hits, hits_of, written, is_some, hits_are_calls}
use pecunator_accu_monetas.Zoo.Lost.{Event, apply_all, failed_commit_loses}

-- A digest for the tests: the text itself.
abbrev digest : List ℕ → List ℕ
digest text = text

abbrev timeout : Report
timeout = record {
  kind = codes "TimeoutError";
  text = codes "no reply";
  origin = codes "vault";
  context = [];
  traceback_text = [];
}

abbrev broken : Report
broken = record timeout { kind = codes "ValueError" }

abbrev calls : List Call
calls =
    record { database = Database.writes; report = timeout; now = 30 }
    ∷ record { database = Database.statement_fails; report = timeout; now = 20 }
    ∷ record { database = Database.writes; report = broken; now = 15 }
    ∷ record { database = Database.writes; report = timeout; now = 10 }
    ∷ []

abbrev print : List ℕ
print = fingerprint digest timeout

hits_run : written digest print calls ≡ 2
unfolding fingerprint same_codes
hits_run = refl

-- The table of an earlier run, whose one row has five hits.
abbrev earlier : List (List ℕ × Entry)
earlier = (print, record (new_entry timeout 1) { hit_count = 5 }) ∷ []

hits_are_calls_example :
    let z = run digest earlier calls in
    let next = fingerprint digest broken in
    (hits print z ≡ written digest print calls + hits_of (find print earlier))
    × ((register digest Database.writes broken 40 z).1
        ≡ some (next, not (is_some (find next z.table))))
hits_are_calls_example =
    hits_are_calls digest earlier print calls broken 40
      (λ e. cc, (λ e. cc, (λ e. cc, (λ e. cc, tt))))

abbrev empty : Zoo
empty = init []

abbrev later : List Event
later =
    Event.registered Database.writes timeout 20
    ∷ Event.resolved print []
    ∷ Event.registered Database.writes broken 30
    ∷ []

failed_commit_loses_example :
    let failed = register digest Database.commit_fails timeout 10 empty in
    let z = apply_all digest later failed.0 in
    (failed.1 ≡ none)
    × (find print z.table ≡ none)
    × ((register digest Database.writes timeout 40 z).1 ≡ some (print, false))
unfolding init is_known find
failed_commit_loses_example = failed_commit_loses digest timeout 10 empty later 40 refl refl
