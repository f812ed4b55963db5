-- ===== src/ApiGovernor/Tests.antt =====
-- The quota manager of runtime/core/api_governor.py with two of its default services.
use pecunator_accu_monetas.Prelude.{ℕ, ◌+◌, ◌≤◌, ◌≡◌, refl, true, [], ◌∷◌, List, arith}
use pecunator_accu_monetas.Prelude.Dict.{Dict, lookup, insert}
use pecunator_accu_monetas.ApiGovernor.{
  ServiceConfig, LimitType, new, effective_limit, used_today, request_token, record_usage,
  record_call, reset_daily_if_needed, token_for, check_service, check_quota, check_window,
  check_daily, recent, window_wait,
}
use pecunator_accu_monetas.ApiGovernor.Window.{counted}
use pecunator_accu_monetas.ApiGovernor.Protocol.{
  Event, run, step, launch, land, pick, opened, flying, units_of, AreSpaced, window_within_budget,
}
use pecunator_accu_monetas.ApiGovernor.Daily.{day_within_budget}

abbrev binance : ServiceConfig
binance = record {
  limit_type = LimitType.weight;
  limit_value = 6000;
  window_seconds = 60;
  rate_limit = 0;
  budget_pct = 70;
  enabled = true;
}

abbrev chart_img : ServiceConfig
chart_img = record {
  limit_type = LimitType.daily;
  limit_value = 50;
  window_seconds = 86400;
  rate_limit = 1000;
  budget_pct = 90;
  enabled = true;
}

abbrev services : Dict ServiceConfig
services = ("binance", binance) ∷ ("chart-img", chart_img) ∷ []

abbrev ask : ℕ → ℕ → Event
ask units at = Event.asks "binance" units 1 at

abbrev answered : ℕ → Event
answered at = Event.records 0 true true 1 at

-- The second request is refused, and the third, after the window, is let through.
abbrev events : List Event
events = ask 4000 10 ∷ answered 15 ∷ ask 201 20 ∷ ask 4100 60026 ∷ answered 60031 ∷ []

window_reopens :
    let h = run events (opened services 1) in
    (counted binance 60031 "binance" h.governor ≡ 4100) × (used_today "binance" h.governor ≡ 8100)
unfolding run step launch land pick request_token record_usage record_call reset_daily_if_needed
    token_for check_service check_quota check_window recent window_wait effective_limit lookup
    insert new
window_reopens = (refl, refl)

-- Two callers that both ask before either records take the window past its limit of 4200.
abbrev race : List Event
race = ask 4000 10 ∷ ask 4000 10 ∷ answered 15 ∷ answered 15 ∷ []

race_passes_limit : counted binance 15 "binance" (run race (opened services 1)).governor ≡ 8000
unfolding run step launch land pick request_token record_usage record_call reset_daily_if_needed
    token_for check_service check_quota check_window recent window_wait effective_limit lookup
    insert new
race_passes_limit = refl

race_spaced : AreSpaced "binance" 4000 race (opened services 1)
unfolding run step launch land pick request_token record_usage record_call reset_daily_if_needed
    token_for check_service check_quota check_window recent window_wait effective_limit lookup
    insert new flying units_of
race_spaced = (λ e. omega arith, (λ e. omega arith, (tt, (tt, tt))))

window_within_budget_example :
    let h = run race (opened services 1) in
    counted binance 15 "binance" h.governor + flying "binance" h.in_flight
    ≤ effective_limit binance + 4000
unfolding lookup
window_within_budget_example =
    window_within_budget services "binance" binance 1 4000 15 race refl refl tt (omega arith)
      race_spaced (omega arith)

-- A chart that is let through on one day and recorded on the next, and one more.
abbrev charts : List Event
charts =
    Event.asks "chart-img" 2 1 5000
    ∷ Event.records 0 true true 2 5010
    ∷ Event.asks "chart-img" 1 2 8000
    ∷ []

charts_spaced : AreSpaced "chart-img" 0 charts (opened services 1)
unfolding run step launch land pick request_token record_usage record_call reset_daily_if_needed
    token_for check_service check_quota check_daily recent effective_limit lookup insert new flying
    units_of
charts_spaced = (λ e. omega arith, (tt, (λ e. omega arith, tt)))

day_within_budget_example :
    let h = run charts (opened services 1) in
    used_today "chart-img" h.governor + flying "chart-img" h.in_flight
    ≤ effective_limit chart_img + 0
unfolding lookup
day_within_budget_example =
    day_within_budget services "chart-img" chart_img 1 0 charts refl refl refl charts_spaced
