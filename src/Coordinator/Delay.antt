-- ===== src/Coordinator/Delay.antt =====
-- `_compute_optimal_delay`, `_phase_collision_score` and `stage_bot` of
-- runtime/core/bot_coordinator.py.
use Prim.Native.String.{String}
use pecunator_accu_monetas.Prelude.{
  ℕ, zero, suc, ◌+◌, ◌-◌, ◌*◌, ◌/◌, ◌%◌, max, min, Bool, true, false, ◌&&◌, ◌||◌, Option, none,
  some, List, [], ◌∷◌, ltb, leb, ◌==◌, if◌then◌else◌,
}
use pecunator_accu_monetas.Prelude.Dict.{Dict, insert}
use pecunator_accu_monetas.Prelude.Frac.{Frac, of_ℕ, add}
use pecunator_accu_monetas.Coordinator.State.{
  Status, StagedBot, ActiveBot, Coordinator, pct_below, distance, min_frac,
}

-- `heatmap[i] += w`
unfoldable pub heat : ℕ → ℕ → List ℕ → List ℕ
heat i w [] = []
heat zero w (h ∷ hs) = (h + w) ∷ hs
heat (suc i) w (h ∷ hs) = h ∷ heat i w hs

-- `while t < 60.0`, with fuel.
unfoldable pub mark_cycles : ℕ → ℕ → ℕ → ℕ → List ℕ → List ℕ
mark_cycles zero t interval w hs = hs
mark_cycles (suc fuel) t interval w hs =
    let rest = mark_cycles fuel (t + interval) interval w (heat (t / 1000 % 60) w hs) in
    if ltb t 60000 then rest else hs

-- Each round adds at least a millisecond.
abbrev pub cycle_fuel : ℕ
cycle_fuel = 60000

-- The loop over the active bots.
unfoldable pub mark_active : ℕ → Dict ActiveBot → List ℕ → List ℕ
mark_active now [] hs = hs
mark_active now ((k, bot) ∷ d) hs =
    let interval = bot.loop_interval in
    let offset = interval - (now - bot.last_cycle) % interval in
    let marked = mark_cycles cycle_fuel offset interval bot.weight_per_cycle hs in
    mark_active now d (if interval == 0 then hs else marked)

abbrev pub is_staged : Status → Bool
is_staged Status.staged = true
is_staged _ = false

-- `now <= launch_at`, and the whole seconds from now to it.
abbrev pub is_ahead : ℕ → Frac → Bool
is_ahead now at = leb (now * at.den) at.num

abbrev pub seconds_ahead : ℕ → Frac → ℕ
seconds_ahead now at = (at.num - now * at.den) / (at.den * 1000)

-- The loop over the other staged bots.
unfoldable pub mark_staged : ℕ → Dict StagedBot → List ℕ → List ℕ
mark_staged now [] hs = hs
mark_staged now ((k, s) ∷ d) hs =
    let sec = seconds_ahead now s.launch_at in
    mark_staged now d (
      if is_staged s.status && is_ahead now s.launch_at && ltb sec 60
      then heat (sec % 60) 15 hs
      else hs)

unfoldable pub zeros : ℕ → List ℕ
zeros zero = []
zeros (suc n) = 0 ∷ zeros n

unfoldable pub heatmap : ℕ → Coordinator → List ℕ
heatmap now c = mark_staged now c.staged (mark_active now c.active (zeros 60))

-- `min(heatmap)`
unfoldable pub least : ℕ → List ℕ → ℕ
least m [] = m
least m (h ∷ hs) = least (min m h) hs

-- `[i for i, w in enumerate(heatmap) if w == min_weight]`
unfoldable pub indices_of : ℕ → ℕ → List ℕ → List ℕ
indices_of m i [] = []
indices_of m i (h ∷ hs) = let rest = indices_of m (i + 1) hs in if h == m then i ∷ rest else rest

-- `range(0, 600, step)`, which has 600 / step elements, rounded up.
unfoldable pub range_from : ℕ → ℕ → ℕ → List ℕ
range_from start step zero = []
range_from start step (suc n) = start ∷ range_from (start + step) step n

unfoldable pub futures : ℕ → List ℕ
futures interval =
    let step = max 1000 interval / 1000 in range_from 0 step ((600 + step - 1) / step)

-- The collisions with one bot over the future seconds.
unfoldable pub bot_score : ℕ → ℕ → ℕ → ℕ → List ℕ → ℕ
bot_score sec offset interval new_interval [] = 0
bot_score sec offset interval new_interval (f ∷ fs) =
    let rest = bot_score sec offset interval new_interval fs in
    let new_phase = (sec + f) * 1000 % new_interval in
    let bot_phase = (offset + f * 1000) % interval in
    if ltb (distance new_phase bot_phase) 3000 then rest + 1 else rest

-- `_phase_collision_score`, for an interval that is not 0.
unfoldable pub phase_collision_score : ℕ → ℕ → Dict ActiveBot → ℕ → ℕ
phase_collision_score now new_interval [] sec = 0
phase_collision_score now new_interval ((k, bot) ∷ d) sec =
    let rest = phase_collision_score now new_interval d sec in
    let interval = bot.loop_interval in
    let offset = (now - bot.last_cycle) % interval in
    let score = bot_score sec offset interval new_interval (futures new_interval) in
    if interval == 0 then rest else score + rest

-- The loop over the quietest seconds: a later one wins only by a lower score.
unfoldable pub best_of : (ℕ → ℕ) → ℕ → List ℕ → ℕ
best_of score best [] = best
best_of score best (s ∷ ss) = best_of score (if ltb (score s) (score best) then s else best) ss

-- The first second is `quietest_seconds[0]`; the list is never empty.
unfoldable pub best_second : (ℕ → ℕ) → List ℕ → ℕ
best_second score [] = 0
best_second score (s ∷ ss) = best_of score s ss

unfoldable pub quietest : List ℕ → List ℕ
quietest [] = []
quietest (h ∷ hs) = indices_of (least h hs) 0 (h ∷ hs)

-- The delay that a weight above 70 % adds: `min(15, (weight_pct - 70) / 2)`.
unfoldable pub weight_delay : Coordinator → Frac
weight_delay c =
    if ltb (70 * c.weight_limit) (c.current_weight * 100)
    then min_frac (of_ℕ 15)
        (record { num = c.current_weight * 100 - 70 * c.weight_limit; den = c.weight_limit * 2 })
    else of_ℕ 0

-- The delay of a bot that is alone.
unfoldable pub first_delay : Coordinator → Frac
first_delay c =
    if pct_below 50 c
    then of_ℕ 0
    else min_frac (of_ℕ 30) (record { num = c.current_weight * 100; den = c.weight_limit * 3 })

-- An active bot with an interval: scoring an interval of 0 against it divides by 0.
unfoldable pub has_interval : Dict ActiveBot → Bool
has_interval [] = false
has_interval ((k, bot) ∷ d) = ltb 0 bot.loop_interval || has_interval d

-- The score of a second, at the reading of the clock that is taken for it.
unfoldable pub score_of : (ℕ → ℕ) → ℕ → Coordinator → ℕ → ℕ
score_of clock new_interval c sec = phase_collision_score (clock sec) new_interval c.active sec

unfoldable pub best_launch_second : ℕ → (ℕ → ℕ) → ℕ → Coordinator → ℕ
best_launch_second now clock new_interval c =
    best_second (score_of clock new_interval c) (quietest (heatmap now c))

-- `_compute_optimal_delay`; `none` is its exception.
unfoldable pub compute_optimal_delay : ℕ → (ℕ → ℕ) → ℕ → Coordinator → Option Frac
compute_optimal_delay now clock new_interval c = elim c.active [
  | [] ↦ some (first_delay c)
  | _ ∷ _ ↦
      if new_interval == 0 && has_interval c.active
      then none
      else some (
          min_frac (of_ℕ 60)
            (add (of_ℕ (best_launch_second now clock new_interval c)) (weight_delay c)))
]

-- `stage_bot`, with the clock's readings for the delay and for the launch; `none` is its exception.
unfoldable pub stage_bot : String → String → ℕ → ℕ → (ℕ → ℕ) → ℕ → Coordinator → Option Coordinator
stage_bot bot_id hub interval now clock now' c = elim (compute_optimal_delay now clock interval c) [
  | none ↦ none
  | some delay ↦
      let bot : StagedBot = record {
        bot_id = bot_id;
        hub_type = hub;
        loop_interval = interval;
        launch_delay_sec = delay;
        launch_at = record { num = now' * delay.den + delay.num * 1000; den = delay.den };
        status = Status.staged;
      } in
      some (record c { staged = insert bot_id bot c.staged })
]
