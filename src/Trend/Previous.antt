-- ===== src/Trend/Previous.antt =====
-- The trend that runtime/modules/trend_signal.py stores against the last candle but one.
use Prim.Native.String.{String}
use pecunator_accu_monetas.Prelude.{
  ℕ, ◌≤◌, ◌<◌, ◌≡◌, refl, ap, ◌∙◌, false, Option, none, some, List, [], ◌∷◌, ◌++◌, map, arith,
  length, if◌then◌else◌, get_or,
}
use pecunator_accu_monetas.Prelude.Frac.{add, ltb_frac, mul_pos}
use pecunator_accu_monetas.Prelude.Dict.{lookup-insert_self}
use pecunator_accu_monetas.Trend.Candles.{
  Kline, HaCandle, Signal, half, next_open, next_candle, candles_after, read_all,
  compute_heikin_ashi, trend_of, compute_trend,
}
use pecunator_accu_monetas.Trend.Service.{
  SymbolState, Service, new_state, state_of, store_trend, update_trend,
}
use pecunator_accu_monetas.Trend.Halves.{mean_above, mean_below}

-- The candle of a kline that comes after others.
abbrev pub candle_of : Option HaCandle → List Kline → Kline → HaCandle
candle_of prev [] k = next_candle prev k
candle_of prev (j ∷ js) k = candle_of (some (next_candle prev j)) js k

-- The denominators of a candle's opening and closing are positive.
abbrev IsProper : HaCandle → Type 0
IsProper c = (0 < c.ha_open.den) × (0 < c.ha_close.den)

abbrev AllProper : Option HaCandle → Type 0
AllProper none = Unit
AllProper (some c) = IsProper c

next_candle-IsProper :
    (prev : Option HaCandle) (k : Kline) → AllProper prev → IsProper (next_candle prev k)
unfolding next_candle next_open
next_candle-IsProper none k h = (omega arith, omega arith)
next_candle-IsProper (some c) k (opening, closing) =
    let pos = mul_pos c.ha_open.den c.ha_close.den opening closing in
    (omega (arith, pos), omega arith)

candle_of-IsProper :
    (prev : Option HaCandle) (js : List Kline) (k : Kline)
    → AllProper prev
    → IsProper (candle_of prev js k)
candle_of-IsProper prev [] k h = next_candle-IsProper prev k h
candle_of-IsProper prev (j ∷ js) k h =
    candle_of-IsProper (some (next_candle prev j)) js k (next_candle-IsProper prev j h)

compute_trend_more :
    (a : HaCandle) (cs : List HaCandle) → 2 ≤ length cs → compute_trend (a ∷ cs) ≡ compute_trend cs
unfolding compute_trend
compute_trend_more a [] h = absurd (omega (arith, h))
compute_trend_more a (b ∷ []) h = absurd (omega (arith, h))
compute_trend_more a (b ∷ c ∷ cs) h = refl

length-candles_after_two :
    (prev : Option HaCandle) (js : List Kline) (p l : Kline)
    → 2 ≤ length (candles_after prev (js ++ p ∷ l ∷ []))
unfolding candles_after
length-candles_after_two prev [] p l = omega arith
length-candles_after_two prev (j ∷ js) p l =
    omega (arith, length-candles_after_two (some (next_candle prev j)) js p l)

compute_trend-candles_after :
    (prev : Option HaCandle) (js : List Kline) (p l : Kline)
    → compute_trend (candles_after prev (js ++ p ∷ l ∷ []))
      ≡ trend_of (candle_of prev js p) (next_candle (some (candle_of prev js p)) l)
unfolding candles_after compute_trend
compute_trend-candles_after prev [] p l = refl
compute_trend-candles_after prev (j ∷ js) p l =
    compute_trend_more (next_candle prev j)
      (candles_after (some (next_candle prev j)) (js ++ p ∷ l ∷ []))
      (length-candles_after_two (some (next_candle prev j)) js p l)
    ∙ compute_trend-candles_after (some (next_candle prev j)) js p l

-- The next opening is above the opening of a candle exactly if its closing is.
signal_of_next :
    (c : HaCandle) (l : Kline)
    → IsProper c
    → (trend_of c (next_candle (some c) l)).signal
      ≡ (if ltb_frac c.ha_open c.ha_close then Signal.bullish else Signal.bearish)
unfolding trend_of next_candle next_open
signal_of_next c l (opening, closing) =
    let next = half (add c.ha_open c.ha_close) in
    let pos = mul_pos c.ha_open.den c.ha_close.den opening closing in
    let below = mean_below next c.ha_open (omega (arith, pos)) in
    let above = mean_above c.ha_open c.ha_close opening in
    ap (λ b. if b then Signal.bullish else Signal.bearish) (below ∙ above)

read_all-map : (ks : List Kline) → read_all (map some ks) ≡ some ks
unfolding read_all
read_all-map [] = refl
read_all-map (k ∷ ks) = rw (read_all-map ks) refl

read_update :
    (symbol : String) (klines : List (Option Kline)) (ks : List Kline) (now : ℕ) (s : Service)
    → read_all klines ≡ some ks
    → s.locked ≡ false
    → update_trend symbol klines now s
      ≡ some (store_trend symbol (compute_trend (candles_after none ks)) now s)
unfolding update_trend compute_heikin_ashi
read_update symbol klines ks now s h free = ground arith

-- On a service whose lock is free, an update with at least two readable klines returns and stores a trend
-- that does not depend on the last kline: it is bullish exactly if the Heikin-Ashi candle before the last
-- one closed above its opening, and bearish otherwise.
pub trend_follows_previous :
    (symbol : String) (js : List Kline) (p l : Kline) (now : ℕ) (s : Service)
    → s.locked ≡ false
    → let c = candle_of none js p in
      (s' : Service) × (update_trend symbol (map some (js ++ p ∷ l ∷ [])) now s ≡ some s')
      × ((state_of symbol s').trend_signal
          ≡ (if ltb_frac c.ha_open c.ha_close then Signal.bullish else Signal.bearish))
unfolding store_trend
trend_follows_previous symbol js p l now s free =
    let cs = candles_after none (js ++ p ∷ l ∷ []) in
    let s' = store_trend symbol (compute_trend cs) now s in
    let stored : (state_of symbol s').trend_signal ≡ (compute_trend cs).signal =
      ap (λ o. (get_or {V = SymbolState} o new_state).trend_signal)
        (lookup-insert_self symbol _ s.states) in
    let signal =
      ap (λ t. t.signal) (compute_trend-candles_after none js p l)
      ∙ signal_of_next (candle_of none js p) l (candle_of-IsProper none js p tt) in
    (
      s',
      read_update symbol (map some (js ++ p ∷ l ∷ [])) (js ++ p ∷ l ∷ []) now s
          (read_all-map (js ++ p ∷ l ∷ [])) free,
      stored ∙ signal,
    )
