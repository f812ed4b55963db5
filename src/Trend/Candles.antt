-- ===== src/Trend/Candles.antt =====
-- The pure functions of runtime/modules/trend_signal.py. The prices of a kline are whole numbers of one
-- unit; what is computed of them are exact fractions, where the source has floats.
use pecunator_accu_monetas.Prelude.{ℕ, Option, none, some, List, [], ◌∷◌, ltb, if◌then◌else◌}
use pecunator_accu_monetas.Prelude.Frac.{Frac, Signed, of_ℕ, add, div, ltb_frac, difference, scale}

-- The fields of a kline that are read.
pub record Kline : Type 0 where
  pub opening : ℕ
  pub high : ℕ
  pub low : ℕ
  pub closing : ℕ

pub record HaCandle : Type 0 where
  pub ha_open : Frac
  pub ha_close : Frac
  pub ha_high : Frac
  pub ha_low : Frac

abbrev pub half : Frac → Frac
half a = div a (of_ℕ 2)

abbrev pub max_of : Frac → Frac → Frac
max_of a b = if ltb_frac a b then b else a

abbrev pub min_of : Frac → Frac → Frac
min_of a b = if ltb_frac b a then b else a

-- The opening of a candle, from its kline or from the candle before it.
unfoldable pub next_open : Option HaCandle → Kline → Frac
next_open none k = half (add (of_ℕ k.opening) (of_ℕ k.closing))
next_open (some p) k = half (add p.ha_open p.ha_close)

unfoldable pub next_candle : Option HaCandle → Kline → HaCandle
next_candle prev k =
    let closing =
      div (add (add (add (of_ℕ k.opening) (of_ℕ k.high)) (of_ℕ k.low)) (of_ℕ k.closing)) (of_ℕ 4) in
    let opening = next_open prev k in
    record {
      ha_open = opening;
      ha_close = closing;
      ha_high = max_of (max_of (of_ℕ k.high) opening) closing;
      ha_low = min_of (min_of (of_ℕ k.low) opening) closing;
    }

-- The candles of klines that follow a candle.
unfoldable pub candles_after : Option HaCandle → List Kline → List HaCandle
candles_after prev [] = []
candles_after prev (k ∷ ks) = next_candle prev k ∷ candles_after (some (next_candle prev k)) ks

-- A kline whose fields cannot be read raises.
unfoldable pub read_all : List (Option Kline) → Option (List Kline)
read_all [] = some []
read_all (none ∷ ks) = none
read_all (some k ∷ ks) = elim (read_all ks) [ none ↦ none | some rest ↦ some (k ∷ rest) ]

-- `compute_heikin_ashi`; `none` is its exception.
unfoldable pub compute_heikin_ashi : List (Option Kline) → Option (List HaCandle)
compute_heikin_ashi ks = elim (read_all ks) [
  | none ↦ none
  | some read ↦ some (candles_after none read)
]

pub data Signal : Type 0 where
  bullish bearish unknown : Signal

pub record Trend : Type 0 where
  pub signal : Signal
  pub ma1 : Frac
  pub ma2 : Frac

-- The trend by the last candle and the one before it.
unfoldable pub trend_of : HaCandle → HaCandle → Trend
trend_of before last =
    let ma1 = last.ha_open in
    let ma2 = half (add last.ha_open before.ha_open) in
    record {
      signal = if ltb_frac ma2 ma1 then Signal.bullish else Signal.bearish;
      ma1 = ma1;
      ma2 = ma2;
    }

-- `compute_trend`
unfoldable pub compute_trend : List HaCandle → Trend
compute_trend [] = record { signal = Signal.unknown; ma1 = of_ℕ 0; ma2 = of_ℕ 0 }
compute_trend (a ∷ []) = record { signal = Signal.unknown; ma1 = of_ℕ 0; ma2 = of_ℕ 0 }
compute_trend (a ∷ b ∷ []) = trend_of a b
compute_trend (a ∷ b ∷ c ∷ cs) = compute_trend (b ∷ c ∷ cs)

pub data Gate : Type 0 where
  clear blocked unknown : Gate

pub record Entry : Type 0 where
  pub gate : Gate
  pub diff : Signed
  pub diff_pct : Signed

-- `compute_entry_gate`, over prices that are not negative.
unfoldable pub compute_entry_gate : Frac → Frac → Entry
compute_entry_gate price opening =
    let diff = difference price opening in
    record {
      gate = if ltb_frac opening price then Gate.clear else Gate.blocked;
      diff = diff;
      diff_pct =
          if ltb 0 opening.num
          then scale diff (div (of_ℕ 100) opening)
          else difference (of_ℕ 0) (of_ℕ 0);
    }
