-- ===== src/Symmetry/Tests.antt =====
-- The guard of runtime/core/symmetry_guard.py on a hub of two bots.
use pecunator_accu_monetas.Prelude.{
  ℕ, ◌*◌, ◌≡◌, ◌≢◌, refl, true, false, Option, some, List, [], ◌∷◌, arith,
}
use pecunator_accu_monetas.Prelude.Codes.{same_codes, upper, find, put, drop}
use pecunator_accu_monetas.BudgetGuard.{codes, is_prefix}
use pecunator_accu_monetas.Symmetry.State.{
  init, is_infix, is_recoverable, extract_symbol, count_of, digits, failure_reason,
  is_symbol_paused, cut,
}
use pecunator_accu_monetas.Symmetry.Pauses.{
  record_order_failure, record_order_success, escalate, pause_symbol, pause_hub, tick,
}
use pecunator_accu_monetas.Symmetry.Preflight.{
  BotConfig, Margin, exposure, preflight, checked, blockers_of, symbol_blockers, margin_blockers,
  usdt_free,
}
use pecunator_accu_monetas.Symmetry.Capital.{
  Trend, Action, usdt, compute_allocation, rebalance, move, raw_shares, with_floors,
}
use pecunator_accu_monetas.Symmetry.Isolation.{failure_isolated}
use pecunator_accu_monetas.Symmetry.Streaks.{Event, run, streak, counts_are_streaks}

abbrev key : List ℕ
key = codes "margin:btc"

abbrev borrow_error : List ℕ
borrow_error = codes "APIError(code=-3045)"

extract_symbol_run : extract_symbol key ≡ codes "BTC"
unfolding extract_symbol upper
extract_symbol_run = refl

borrow_error_recoverable : is_recoverable borrow_error ≡ true
unfolding is_recoverable is_infix is_prefix
borrow_error_recoverable = refl

key_has_symbol : extract_symbol key ≢ []
unfolding extract_symbol upper
key_has_symbol = ground arith

digits_run : digits 43 42 ≡ codes "42"
unfolding digits
digits_run = refl

-- The third failure in a row pauses the symbol, and the success after it lifts the pause.
abbrev failures : List Event
failures =
    Event.failure key borrow_error 3
    ∷ Event.failure key borrow_error 2
    ∷ Event.failure key borrow_error 1
    ∷ []

paused_run : is_symbol_paused (codes "btc") (run failures) ≡ true
unfolding is_symbol_paused record_order_failure escalate pause_symbol is_recoverable is_infix
    is_prefix extract_symbol upper find failure_reason digits cut init same_codes put drop
paused_run = refl

lifted_run : is_symbol_paused (codes "btc") (run (Event.success key ∷ failures)) ≡ false
unfolding is_symbol_paused record_order_failure record_order_success escalate pause_symbol
    is_recoverable is_infix is_prefix extract_symbol upper find failure_reason digits cut init
    same_codes put drop
lifted_run = refl

failure_isolated_example :
    let g' = record_order_failure key borrow_error 3 (run failures) in
    (g'.is_paused ≡ (run failures).is_paused)
    × ((t : List ℕ)
        → same_codes (extract_symbol key) t ≡ false
        → find t g'.paused_symbols ≡ find t (run failures).paused_symbols)
    × ((k : List ℕ) → same_codes key k ≡ false → count_of k g' ≡ count_of k (run failures))
failure_isolated_example =
    failure_isolated key borrow_error 3 (run failures) borrow_error_recoverable key_has_symbol

unpaused_run : (run failures).is_paused ≡ false
unfolding record_order_failure escalate pause_symbol is_recoverable is_infix is_prefix
    extract_symbol upper find failure_reason digits cut init same_codes put drop
unpaused_run = refl

-- A bot with no symbol in its key pauses the hub, the tick after five minutes retries, and one more
-- failure starts the count again.
abbrev solo : List ℕ
solo = codes "solo"

abbrev retried : List Event
retried =
    Event.failure solo borrow_error 400000
    ∷ Event.ticks 300003
    ∷ Event.ticks 4
    ∷ Event.failure solo borrow_error 3
    ∷ Event.failure solo borrow_error 2
    ∷ Event.failure solo borrow_error 1
    ∷ []

retry_starts_anew : count_of solo (run retried) ≡ 1
unfolding record_order_failure escalate pause_hub tick is_recoverable is_infix is_prefix
    extract_symbol upper find failure_reason digits cut init same_codes put
retry_starts_anew = refl

counts_are_streaks_example : count_of solo (run retried) ≡ streak solo retried
counts_are_streaks_example = counts_are_streaks solo retried

abbrev dorothy : BotConfig
dorothy = record { symbol = codes "btcusdt"; quote_order_qty = 1000; max_rungs = 3 }

abbrev elphaba : BotConfig
elphaba = record { symbol = codes "BTCUSDT"; quote_order_qty = 1000; max_rungs = 0 }

abbrev account : Option (List (List ℕ × ℕ))
account = some ((codes "BNB", 5) ∷ (codes "USDT", 4000) ∷ [])

cleared_run : (preflight 9 dorothy elphaba account (Margin.wallet 400) init).1.cleared ≡ true
unfolding preflight checked blockers_of symbol_blockers margin_blockers usdt_free exposure
    same_codes upper init
cleared_run = refl

rebalance_run :
    rebalance true (some (90 * usdt)) (some (10 * usdt)) Trend.neutral
    ≡ Action.spot_to_margin (40 * usdt)
unfolding rebalance compute_allocation raw_shares with_floors move
rebalance_run = refl
