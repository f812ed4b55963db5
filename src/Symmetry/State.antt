-- ===== src/Symmetry/State.antt =====
-- The state of `SymmetryGuard` of runtime/core/symmetry_guard.py, its queries and its reset. Texts
-- are lists of ASCII codes; the clock's readings are whole milliseconds. What the guard sends to
-- the registry of toxic symbols and to the alerts is kept in `effects`, the newest first. The log
-- lines are not modelled.
use pecunator_accu_monetas.Prelude.{
  ℕ, zero, suc, ◌+◌, ◌/◌, ◌%◌, Bool, true, false, ◌||◌, Option, none, some, List, [], ◌∷◌, ◌++◌,
  map, ltb, ◌==◌, if◌then◌else◌, get_or,
}
use pecunator_accu_monetas.Prelude.Codes.{upper, find}
use pecunator_accu_monetas.BudgetGuard.{codes, is_prefix}

-- An entry of `_paused_symbols`.
pub record Pause : Type 0 where
  pub reason : List ℕ
  pub ts : ℕ
  pub bot_key : List ℕ
  pub attempts : ℕ

pub data Effect : Type 0 where
  blacklisted : List ℕ → Effect
  symbol_paused_alert : List ℕ → Effect
  hub_paused_alert : Effect

pub data Blocker : Type 0 where
  hub_paused symbol_missing symbol_mismatch spot_query_failed : Blocker
  spot_capital_low margin_not_enabled total_capital_low : Blocker

-- The verdict of a preflight; the warnings, which block nothing, are left out.
pub record HubHealth : Type 0 where
  pub cleared : Bool
  pub blockers : List Blocker
  pub spot_usdt_free : ℕ
  pub margin_usdt_free : ℕ
  pub dorothy_exposure : ℕ
  pub elphaba_exposure : ℕ
  pub ts : ℕ

pub record Guard : Type 0 where
  pub last_health : Option HubHealth
  pub failure_counts : List (List ℕ × ℕ)
  pub is_paused : Bool
  pub pause_reason : List ℕ
  pub pause_ts : ℕ
  pub recovery_attempts : ℕ
  pub needs_rotation : Bool
  pub paused_symbols : List (List ℕ × Pause)
  pub effects : List Effect

-- `__init__`
unfoldable pub init : Guard
init = record {
  last_health = none;
  failure_counts = [];
  is_paused = false;
  pause_reason = [];
  pause_ts = 0;
  recovery_attempts = 0;
  needs_rotation = false;
  paused_symbols = [];
  effects = [];
}

-- `part in text`
unfoldable pub is_infix : List ℕ → List ℕ → Bool
is_infix part [] = is_prefix part []
is_infix part (c ∷ cs) = is_prefix part (c ∷ cs) || is_infix part cs

-- `any(code in error for code in _RECOVERABLE_CODES)`
unfoldable pub is_recoverable : List ℕ → Bool
is_recoverable text =
    is_infix (codes "-3045") text || is_infix (codes "-3041") text || is_infix (codes "-3042") text

-- `_extract_symbol`
unfoldable pub extract_symbol : List ℕ → List ℕ
extract_symbol [] = []
extract_symbol (c ∷ cs) = if c == b':' then map upper cs else extract_symbol cs

-- `error[:n]`
unfoldable pub cut : ℕ → List ℕ → List ℕ
cut zero cs = []
cut (suc n) [] = []
cut (suc n) (c ∷ cs) = c ∷ cut n cs

-- A number in an f-string, with fuel that its own value covers.
unfoldable pub digits : ℕ → ℕ → List ℕ
digits zero n = []
digits (suc fuel) n =
    let rest = digits fuel (n / 10) in
    if ltb n 10 then (b'0' + n) ∷ [] else rest ++ (b'0' + n % 10) ∷ []

unfoldable pub failure_reason : List ℕ → ℕ → List ℕ → List ℕ
failure_reason bot_key count error =
    bot_key
    ++ codes " hit "
    ++ digits (suc count) count
    ++ codes " consecutive order failures. Last error: "
    ++ cut 200 error

abbrev pub count_of : List ℕ → Guard → ℕ
count_of bot_key g = get_or (find bot_key g.failure_counts) 0

abbrev pub is_some {ℓ} : {A : Type ℓ} → Option A → Bool
is_some none = false
is_some (some x) = true

-- `is_symbol_paused`
unfoldable pub is_symbol_paused : List ℕ → Guard → Bool
is_symbol_paused symbol g = is_some (find (map upper symbol) g.paused_symbols)

-- `reset_pause`
unfoldable pub reset_pause : Guard → Guard
reset_pause g = record g {
  is_paused = false;
  pause_reason = [];
  failure_counts = [];
  paused_symbols = [];
}

-- `get_cached_health`
unfoldable pub get_cached_health : ℕ → Guard → Option HubHealth
get_cached_health now g = elim g.last_health [
  | none ↦ none
  | some h ↦ if ltb now (h.ts + 120000) then some h else none
]
