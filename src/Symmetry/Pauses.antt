-- ===== src/Symmetry/Pauses.antt =====
-- `record_order_success`, `record_order_failure` and `tick` of runtime/core/symmetry_guard.py.
use pecunator_accu_monetas.Prelude.{
  ℕ, ◌+◌, true, false, not, ◌&&◌, Option, none, some, List, [], ◌∷◌, ◌++◌, ltb, leb, if◌then◌else◌,
}
use pecunator_accu_monetas.Prelude.Codes.{find, put, drop}
use pecunator_accu_monetas.BudgetGuard.{codes}
use pecunator_accu_monetas.Symmetry.State.{
  Pause, Effect, Guard, is_infix, is_recoverable, extract_symbol, failure_reason, count_of,
}

abbrev pub max_failure_streak : ℕ
max_failure_streak = 3

abbrev pub max_recovery_attempts : ℕ
max_recovery_attempts = 3

abbrev pub recovery_cooldown : ℕ
recovery_cooldown = 300000

-- `record_order_success`: an empty symbol stands in no entry.
unfoldable pub record_order_success : List ℕ → Guard → Guard
record_order_success bot_key g =
    let g' : Guard = record g {
      failure_counts = put bot_key 0 g.failure_counts;
      paused_symbols = drop (extract_symbol bot_key) g.paused_symbols;
    } in
    if g.is_paused && is_infix bot_key g.pause_reason
    then record g' {
      is_paused = false;
      pause_reason = [];
      recovery_attempts = 0;
      needs_rotation = false;
    }
    else g'

abbrev pub attempts_of : Option Pause → ℕ
attempts_of none = 0
attempts_of (some p) = p.attempts

-- The pause of a symbol, which blacklists it from the third attempt on.
unfoldable pub pause_symbol : List ℕ → List ℕ → List ℕ → ℕ → Guard → Guard
pause_symbol symbol bot_key reason now g =
    let attempts = attempts_of (find symbol g.paused_symbols) + 1 in
    let pause : Pause = record {
      reason = reason;
      ts = now;
      bot_key = bot_key;
      attempts = attempts;
    } in
    let listed =
      if leb max_recovery_attempts attempts
      then Effect.blacklisted symbol ∷ g.effects
      else g.effects in
    record g {
      paused_symbols = put symbol pause g.paused_symbols;
      effects = Effect.symbol_paused_alert symbol ∷ listed;
    }

-- The pause of the hub.
unfoldable pub pause_hub : List ℕ → ℕ → Guard → Guard
pause_hub reason now g = record g {
  is_paused = true;
  pause_ts = now;
  pause_reason = codes "Hub paused: " ++ reason;
  effects = Effect.hub_paused_alert ∷ g.effects;
}

-- What follows a failure that completes a streak: an empty symbol pauses the hub.
unfoldable pub escalate : List ℕ → List ℕ → List ℕ → List ℕ → ℕ → Guard → Guard
escalate [] bot_key error reason now g = pause_hub reason now g
escalate (c ∷ cs) bot_key error reason now g =
    if is_recoverable error
    then pause_symbol (c ∷ cs) bot_key reason now g
    else pause_hub reason now g

-- `record_order_failure`
unfoldable pub record_order_failure : List ℕ → List ℕ → ℕ → Guard → Guard
record_order_failure bot_key error now g =
    let count = count_of bot_key g + 1 in
    let g' : Guard = record g { failure_counts = put bot_key count g.failure_counts } in
    if leb max_failure_streak count
    then escalate (extract_symbol bot_key) bot_key error (failure_reason bot_key count error) now g'
    else g'

pub data Tick : Type 0 where
  nothing hard_pause cooling_down needs_rotation : Tick
  auto_retry : ℕ → Tick

-- `tick`
unfoldable pub tick : ℕ → Guard → Guard × Tick
tick now g =
    let attempts = g.recovery_attempts + 1 in
    if not g.is_paused
    then (g, Tick.nothing)
    else if not (is_recoverable g.pause_reason)
    then (g, Tick.hard_pause)
    else if ltb now (g.pause_ts + recovery_cooldown)
    then (g, Tick.cooling_down)
    else if ltb max_recovery_attempts attempts
    then (record g { recovery_attempts = attempts; needs_rotation = true }, Tick.needs_rotation)
    else (
      record g {
        recovery_attempts = attempts;
        is_paused = false;
        pause_reason = [];
        failure_counts = [];
      },
      Tick.auto_retry attempts,
    )
