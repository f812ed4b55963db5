-- ===== src/ApiGovernor/Counters.antt =====
-- The daily counters of runtime/core/api_governor.py, in memory and in the database.
use pecunator_accu_monetas.Prelude.{
  ℕ, ◌+◌, ◌≡◌, Bool, ◌&&◌, List, [], ◌∷◌, arith, ◌==◌, if◌then◌else◌,
}
use pecunator_accu_monetas.Prelude.Dict.{same, lookup, lookup-insert_self}
use pecunator_accu_monetas.ApiGovernor.{
  Governor, Counter, count_usage, record_call, record_usage, used_today, reset_daily_if_needed,
}
use Prim.Native.String.{String}
use text.Mathlib.TextPositions.{eq_refl}

-- The units that the table holds for a service on a day.
abbrev pub units_on : ℕ → String → List Counter → ℕ
units_on day service [] = 0
units_on day service (c ∷ cs) =
    (if c.date == day && same c.service service then c.total_units else 0) + units_on day service cs

count_usage-units_on :
    (today : ℕ) (service : String) (units : ℕ) (success : Bool) (cs : List Counter)
    → units_on today service (count_usage today service units success cs)
      ≡ units_on today service cs + units
unfolding count_usage
count_usage-units_on today service units success [] = ground (arith, eq_refl service)
count_usage-units_on today service units success (c ∷ cs) =
    ground (arith, count_usage-units_on today service units success cs)

-- What the reset leaves of the governor that has noted the call.
reset-record_call :
    (service : String) (units today now : ℕ) (g : Governor)
    → let g' = reset_daily_if_needed today (record_call service units now g) in
      (used_today service g' ≡ (if g.daily_date == today then used_today service g else 0))
      × (g'.daily_counters ≡ g.daily_counters)
      × (g'.daily_date ≡ today)
unfolding reset_daily_if_needed record_call lookup
reset-record_call service units today now g = ground arith

-- Where the database works, the counter in memory and the row of the day grow by the units of the
-- call; the counter in memory starts from 0 on a new day. Where it fails, only the memory counts.
pub record_usage-counters :
    (service : String) (units : ℕ) (success db_ok : Bool) (today now : ℕ) (g : Governor)
    → let g' = record_usage service units success db_ok today now g in
      (used_today service g' ≡ (if g.daily_date == today then used_today service g else 0) + units)
      × (units_on today service g'.daily_counters
          ≡ units_on today service g.daily_counters + (if db_ok then units else 0))
      × (g'.daily_date ≡ today)
unfolding record_usage
record_usage-counters service units success db_ok today now g =
    let r = reset-record_call service units today now g in
    let g' = reset_daily_if_needed today (record_call service units now g) in
    (
      rw lookup-insert_self (omega (arith, r.0)),
      rw (r.1, r.2)
          (ground (arith, count_usage-units_on today service units success g.daily_counters)),
      r.2,
    )
