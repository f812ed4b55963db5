-- ===== src/ApiGovernor.antt =====
-- The quota manager of runtime/core/api_governor.py: `request_token` and `record_usage` over the
-- services' rate limits, sliding windows and daily counters.
-- Times are readings of `time.monotonic()` in milliseconds and days are numbers; both are arguments.
-- A budget fraction is a number of hundredths. Of a log row the texts, the priority and the latency
-- are left out. A database that fails is an argument, since the source catches that. The status
-- dict, the reports, the purge and the log lines are not modelled.
pub mod Settings
pub mod Window
pub mod Daily
pub mod Protocol
pub mod Races
pub mod Counters
mod Tests
use pecunator_accu_monetas.Prelude.{
  get_or, ℕ, ◌+◌, ◌-◌, ◌*◌, ◌/◌, max, Bool, true, false, not, ◌&&◌, Option, none, some, List, [],
  ◌∷◌, ◌++◌, ltb, ◌==◌, if◌then◌else◌, keep_if, sum_of,
}
use pecunator_accu_monetas.Prelude.Dict.{Dict, same, lookup, insert}
use Prim.Native.String.{String}

-- "weight", "daily", "rpm", or any other text.
pub data LimitType : Type 0 where
  weight daily rpm other : LimitType

pub record ServiceConfig : Type 0 where
  pub limit_type : LimitType
  pub limit_value : ℕ
  pub window_seconds : ℕ
  pub rate_limit : ℕ
  pub budget_pct : ℕ
  pub enabled : Bool

pub record Usage : Type 0 where
  pub at : ℕ
  pub units : ℕ

-- A row of `api_usage_log`.
pub record LogRow : Type 0 where
  pub service : String
  pub units_used : ℕ
  pub success : Bool

-- A row of `api_daily_counters`, which is unique by day and service.
pub record Counter : Type 0 where
  pub date : ℕ
  pub service : String
  pub total_calls : ℕ
  pub total_units : ℕ
  pub errors : ℕ

pub record Governor : Type 0 where
  pub services : Dict ServiceConfig
  pub last_call : Dict ℕ
  pub window_usage : Dict (List Usage)
  pub daily_usage : Dict ℕ
  pub daily_date : ℕ
  pub usage_log : List LogRow
  pub daily_counters : List Counter

-- `__init__`, on the day `today`.
unfoldable pub new : Dict ServiceConfig → ℕ → Governor
new services today = record {
  services = services;
  last_call = [];
  window_usage = [];
  daily_usage = [];
  daily_date = today;
  usage_log = [];
  daily_counters = [];
}

-- Permission, a time to wait in milliseconds, or an exhausted budget.
pub data Token : Type 0 where
  allowed : Token
  wait : ℕ → Token
  exhausted : Token

-- `_reset_daily_if_needed`
unfoldable pub reset_daily_if_needed : ℕ → Governor → Governor
reset_daily_if_needed today g =
    if g.daily_date == today then g else record g { daily_date = today; daily_usage = [] }

-- `int(cfg.limit_value * cfg.budget_pct)`
unfoldable pub effective_limit : ServiceConfig → ℕ
effective_limit cfg = cfg.limit_value * cfg.budget_pct / 100

-- `[(ts, u) for ts, u in window if ts > now - window_seconds]`
unfoldable pub recent : ServiceConfig → ℕ → List Usage → List Usage
recent cfg now = keep_if (λ u. ltb now (u.at + cfg.window_seconds * 1000))

-- `sum(u for _, u in window)`
abbrev pub total : List Usage → ℕ
total = sum_of (λ u. u.units)

-- The wait until the oldest entry leaves the window, or the whole window if it is empty.
unfoldable pub window_wait : ServiceConfig → ℕ → List Usage → ℕ
window_wait cfg now [] = cfg.window_seconds * 1000
window_wait cfg now (u ∷ us) = max 100 (u.at + cfg.window_seconds * 1000 - now)

-- `self._window_usage.get(service, [])` and the like.
abbrev pub window_of : String → Governor → List Usage
window_of service g = get_or (lookup service g.window_usage) []

abbrev pub used_today : String → Governor → ℕ
used_today service g = get_or (lookup service g.daily_usage) 0

unfoldable pub check_daily : ServiceConfig → String → ℕ → Governor → Token
check_daily cfg service units g =
    if ltb (effective_limit cfg) (used_today service g + units)
    then Token.exhausted
    else Token.allowed

unfoldable pub check_window : ServiceConfig → String → ℕ → ℕ → Governor → Governor × Token
check_window cfg service units now g =
    let window = recent cfg now (window_of service g) in
    (
      record g { window_usage = insert service window g.window_usage },
      if ltb (effective_limit cfg) (total window + units)
          then Token.wait (window_wait cfg now window)
          else Token.allowed,
    )

-- The quota check by the type of the limit.
unfoldable pub check_quota :
    LimitType → ServiceConfig → String → ℕ → ℕ → Governor → Governor × Token
check_quota LimitType.daily cfg service units now g = (g, check_daily cfg service units g)
check_quota LimitType.rpm cfg service units now g = check_window cfg service units now g
check_quota LimitType.weight cfg service units now g = check_window cfg service units now g
check_quota LimitType.other cfg service units now g = (g, Token.allowed)

-- The checks on a service that is known and enabled: the rate limit first, then the quota.
unfoldable pub check_service : ServiceConfig → String → ℕ → ℕ → Governor → Governor × Token
check_service cfg service units now g =
    let elapsed = now - get_or (lookup service g.last_call) 0 in
    if ltb 0 cfg.rate_limit && ltb elapsed cfg.rate_limit
    then (g, Token.wait (cfg.rate_limit - elapsed))
    else check_quota cfg.limit_type cfg service units now g

-- The check on what `self._services.get(service)` found.
unfoldable pub token_for : Option ServiceConfig → String → ℕ → ℕ → ℕ → Governor → Governor × Token
token_for none service units today now g = (g, Token.allowed)
token_for (some cfg) service units today now g =
    if not cfg.enabled
    then (g, Token.allowed)
    else check_service cfg service units now (reset_daily_if_needed today g)

-- `request_token`
unfoldable pub request_token : String → ℕ → ℕ → ℕ → Governor → Governor × Token
request_token service units today now g =
    token_for (lookup service g.services) service units today now g

-- The time of the call and the new entry of the sliding window.
unfoldable pub record_call : String → ℕ → ℕ → Governor → Governor
record_call service units now g = record g {
  last_call = insert service now g.last_call;
  window_usage =
      insert service (window_of service g ++ record { at = now; units = units } ∷ [])
        g.window_usage;
}

-- `INSERT INTO api_daily_counters … ON CONFLICT(date_utc, service) DO UPDATE`.
unfoldable pub count_usage : ℕ → String → ℕ → Bool → List Counter → List Counter
count_usage today service units success [] =
    record {
      date = today;
      service = service;
      total_calls = 1;
      total_units = units;
      errors = if success then 0 else 1;
    }
    ∷ []
count_usage today service units success (c ∷ cs) =
    if c.date == today && same c.service service
    then record c {
      total_calls = c.total_calls + 1;
      total_units = c.total_units + units;
      errors = c.errors + (if success then 0 else 1);
    }
      ∷ cs
    else c ∷ count_usage today service units success cs

-- `record_usage`; `db_ok` says whether the database took the row.
unfoldable pub record_usage : String → ℕ → Bool → Bool → ℕ → ℕ → Governor → Governor
record_usage service units success db_ok today now g =
    let g' = reset_daily_if_needed today (record_call service units now g) in
    record g' {
      daily_usage = insert service (used_today service g' + units) g'.daily_usage;
      usage_log =
          if db_ok
          then record { service = service; units_used = units; success = success } ∷ g'.usage_log
          else g'.usage_log;
      daily_counters =
          if db_ok
          then count_usage g'.daily_date service units success g'.daily_counters
          else g'.daily_counters;
    }
