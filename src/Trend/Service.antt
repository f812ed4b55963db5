-- ===== src/Trend/Service.antt =====
-- `TrendingSignalTipoHeikinAshiandMM` of runtime/modules/trend_signal.py. Clocks and lifetimes are whole
-- milliseconds. The lock is not reentrant: an operation on a service whose lock is held is `none`, since it
-- waits for ever if its own caller holds it.
use Prim.Native.String.{String}
use pecunator_accu_monetas.Prelude.{
  ℕ, ◌+◌, ◌-◌, Bool, true, false, Option, none, some, List, [], ◌∷◌, ltb, if◌then◌else◌, get_or,
}
use pecunator_accu_monetas.Prelude.Frac.{Frac, of_ℕ}
use pecunator_accu_monetas.Prelude.Dict.{Dict, lookup, insert}
use pecunator_accu_monetas.Trend.Candles.{
  Kline, Signal, Trend, Gate, compute_heikin_ashi, compute_trend, compute_entry_gate,
}

pub record SymbolState : Type 0 where
  pub trend_signal : Signal
  pub ma1 : Frac
  pub ma2 : Frac
  pub entry_gate : Gate
  pub entry_price : Frac
  pub candle_open : Frac
  pub trend_updated_at : ℕ
  pub entry_updated_at : ℕ

pub record Service : Type 0 where
  pub trend_ttl : ℕ
  pub entry_ttl : ℕ
  pub states : Dict SymbolState
  pub locked : Bool

-- `__init__`
unfoldable pub init : ℕ → ℕ → Service
init trend_ttl entry_ttl = record {
  trend_ttl = trend_ttl;
  entry_ttl = entry_ttl;
  states = [];
  locked = false;
}

abbrev pub new_state : SymbolState
new_state = record {
  trend_signal = Signal.unknown;
  ma1 = of_ℕ 0;
  ma2 = of_ℕ 0;
  entry_gate = Gate.unknown;
  entry_price = of_ℕ 0;
  candle_open = of_ℕ 0;
  trend_updated_at = 0;
  entry_updated_at = 0;
}

-- The state of a symbol that `_get_or_create` finds or makes.
abbrev pub state_of : String → Service → SymbolState
state_of symbol s = get_or (lookup symbol s.states) new_state

-- `_get_or_create`
unfoldable pub get_or_create : String → Service → Service
get_or_create symbol s = record s { states = insert symbol (state_of symbol s) s.states }

-- `with self._lock`, around a body that returns.
unfoldable pub with_lock {ℓ} :
    {A : Type ℓ} → (Service → Service × A) → Service → Option (Service × A)
with_lock body s = if s.locked then none else some (body s)

-- `needs_trend_refresh` and `needs_entry_refresh`
unfoldable pub needs_trend_refresh : String → ℕ → Service → Option (Service × Bool)
needs_trend_refresh symbol now =
    with_lock
      (λ s. (get_or_create symbol s, ltb ((state_of symbol s).trend_updated_at + s.trend_ttl) now))

unfoldable pub needs_entry_refresh : String → ℕ → Service → Option (Service × Bool)
needs_entry_refresh symbol now =
    with_lock
      (λ s. (get_or_create symbol s, ltb ((state_of symbol s).entry_updated_at + s.entry_ttl) now))

unfoldable pub store_trend : String → Trend → ℕ → Service → Service
store_trend symbol t now s = record s {
  states =
      insert symbol
        (record (state_of symbol s) {
          trend_signal = t.signal;
          ma1 = t.ma1;
          ma2 = t.ma2;
          trend_updated_at = now;
        })
        s.states;
}

-- `update_trend`; klines that cannot be read change nothing.
unfoldable pub update_trend : String → List (Option Kline) → ℕ → Service → Option Service
update_trend symbol klines now s = elim (compute_heikin_ashi klines) [
  | none ↦ some s
  | some candles ↦
      if s.locked then none else some (store_trend symbol (compute_trend candles) now s)
]

-- `update_entry_gate`
unfoldable pub update_entry_gate : String → Frac → Frac → ℕ → Service → Option Service
update_entry_gate symbol price opening now s =
    if s.locked
    then none
    else some (record s {
      states =
          insert symbol
            (record (state_of symbol s) {
              entry_gate = (compute_entry_gate price opening).gate;
              entry_price = price;
              candle_open = opening;
              entry_updated_at = now;
            })
            s.states;
    })

-- What `get_full_state` reads of a symbol: its state, and the ages of its parts, if they were updated.
pub record FullState : Type 0 where
  pub state : SymbolState
  pub trend_age : Option ℕ
  pub entry_age : Option ℕ

abbrev pub age_of : ℕ → ℕ → Option ℕ
age_of now updated_at = if ltb 0 updated_at then some (now - updated_at) else none

-- `get_full_state`
unfoldable pub get_full_state : String → ℕ → Service → Option (Service × FullState)
get_full_state symbol now = with_lock (λ s. (
  get_or_create symbol s,
  record {
    state = state_of symbol s;
    trend_age = age_of now (state_of symbol s).trend_updated_at;
    entry_age = age_of now (state_of symbol s).entry_updated_at;
  },
))

-- The comprehension over the symbols, inside the lock.
unfoldable pub full_states :
    List (String × SymbolState) → ℕ → Service → Option (Service × Dict FullState)
full_states [] now s = some (s, [])
full_states ((symbol, state) ∷ ss) now s = elim (get_full_state symbol now s) [
  | none ↦ none
  | some (s', full) ↦ elim (full_states ss now s') [
    | none ↦ none
    | some (s'', rest) ↦ some (s'', (symbol, full) ∷ rest)
  ]
]

-- `get_all_symbols`
unfoldable pub get_all_symbols : ℕ → Service → Option (Service × Dict FullState)
get_all_symbols now s =
    if s.locked then none else elim (full_states s.states now (record s { locked = true })) [
      | none ↦ none
      | some (s', all) ↦ some (record s' { locked = false }, all)
    ]
