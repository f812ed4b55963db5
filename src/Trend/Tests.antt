-- ===== src/Trend/Tests.antt =====
-- The trend of runtime/modules/trend_signal.py on three klines.
use pecunator_accu_monetas.Prelude.{
  ◌+◌, ◌≡◌, ◌≢◌, ◌↔◌, refl, false, none, some, List, [], ◌∷◌, ◌++◌, map, ltb, if◌then◌else◌,
}
use pecunator_accu_monetas.Prelude.Frac.{of_ℕ, ltb_frac}
use pecunator_accu_monetas.Trend.Candles.{
  Kline, Signal, Gate, next_candle, next_open, candles_after, read_all, compute_heikin_ashi,
  compute_trend, trend_of, compute_entry_gate,
}
use pecunator_accu_monetas.Trend.Service.{
  Service, init, state_of, update_trend, needs_trend_refresh, get_or_create, get_all_symbols,
}
use pecunator_accu_monetas.Trend.Previous.{candle_of, trend_follows_previous}
use pecunator_accu_monetas.Trend.Locked.{get_all_symbols_waits}
use pecunator_accu_monetas.Trend.Staleness.{Call, run, last_trend, needs_trend_refresh_exact}

abbrev up : Kline
up = record { opening = 10; high = 50; low = 10; closing = 40 }

abbrev down : Kline
down = record { opening = 20; high = 20; low = 4; closing = 4 }

-- The last kline falls, and the signal still is the rise of the one before it.
bullish_run : (compute_trend (candles_after none (up ∷ up ∷ down ∷ []))).signal ≡ Signal.bullish
unfolding compute_trend trend_of candles_after next_candle next_open
bullish_run = refl

gate_run : (compute_entry_gate (of_ℕ 9) (of_ℕ 9)).gate ≡ Gate.blocked
unfolding compute_entry_gate
gate_run = refl

abbrev service : Service
service = init 300000 60000

free : service.locked ≡ false
unfolding init
free = refl

trend_follows_previous_example :
    (s' : Service) × (update_trend "BTCUSDT" (map some ((up ∷ []) ++ up ∷ down ∷ [])) 7 service
      ≡ some s')
    × ((state_of "BTCUSDT" s').trend_signal ≡ (
        if ltb_frac (candle_of none (up ∷ []) up).ha_open (candle_of none (up ∷ []) up).ha_close
        then Signal.bullish
        else Signal.bearish))
trend_follows_previous_example = trend_follows_previous "BTCUSDT" (up ∷ []) up down 7 service free

abbrev asked : Service
asked = get_or_create "BTCUSDT" service

asked_free : asked.locked ≡ false
unfolding init get_or_create
asked_free = refl

get_all_symbols_waits_example :
    ((get_all_symbols 9 asked ≡ none) ↔ (asked.states ≢ []))
    × (asked.states ≡ [] → get_all_symbols 9 asked ≡ some (asked, []))
get_all_symbols_waits_example = get_all_symbols_waits 9 asked asked_free

-- A symbol that was never updated is not asked for within the first 300 seconds of the clock.
abbrev calls : List Call
calls =
    Call.trend_update "BTCUSDT" (none ∷ []) 500000
    ∷ Call.trend_update "BTCUSDT" (some up ∷ []) 100000
    ∷ Call.trend_question "ETHUSDT" 5
    ∷ []

last_run : (last_trend "BTCUSDT" calls ≡ 100000) × (last_trend "ETHUSDT" calls ≡ 0)
unfolding compute_heikin_ashi read_all
last_run = (refl, refl)

needs_trend_refresh_exact_example :
    (s : Service) × (s' : Service) × (run 300000 60000 calls ≡ some s)
    × (needs_trend_refresh "BTCUSDT" 600000 s
        ≡ some (s', ltb (last_trend "BTCUSDT" calls + 300000) 600000))
needs_trend_refresh_exact_example = needs_trend_refresh_exact 300000 60000 calls "BTCUSDT" 600000
