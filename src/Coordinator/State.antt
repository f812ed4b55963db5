-- ===== src/Coordinator/State.antt =====
-- The state of `BotCoordinator` of runtime/core/bot_coordinator.py, the registry of active bots and
-- the sliding of a bot's next cycle. Clocks and intervals are whole milliseconds; delays are exact
-- fractions of seconds, where the source has floats. An interval is not negative. The log lines, the
-- texts that explain a delay and the status dictionary are not modelled.
use Prim.Native.String.{String}
use pecunator_accu_monetas.Prelude.{
  ℕ, ◌+◌, ◌-◌, ◌*◌, max, Bool, not, ◌&&◌, none, some, List, [], ◌∷◌, ltb, ◌==◌, if◌then◌else◌,
}
use pecunator_accu_monetas.Prelude.Dict.{Dict, same, lookup, insert, erase}
use pecunator_accu_monetas.Prelude.Frac.{Frac, of_ℕ, mul, leb_frac}

pub data Status : Type 0 where
  staged launching done failed : Status

pub record StagedBot : Type 0 where
  pub bot_id : String
  pub hub_type : String
  pub loop_interval : ℕ
  pub launch_delay_sec : Frac
  pub launch_at : Frac
  pub status : Status

pub record ActiveBot : Type 0 where
  pub bot_id : String
  pub loop_interval : ℕ
  pub last_cycle : ℕ
  pub weight_per_cycle : ℕ

-- The hub types that have a callback stand in `callbacks`.
pub record Coordinator : Type 0 where
  pub weight_limit : ℕ
  pub staged : Dict StagedBot
  pub active : Dict ActiveBot
  pub current_weight : ℕ
  pub callbacks : List String

-- `__init__`; the target budget is not read anywhere.
unfoldable pub init : ℕ → Coordinator
init weight_limit = record {
  weight_limit = max 1 weight_limit;
  staged = [];
  active = [];
  current_weight = 0;
  callbacks = [];
}

-- `register_callback`
unfoldable pub register_callback : String → Coordinator → Coordinator
register_callback hub c = record c { callbacks = hub ∷ c.callbacks }

-- `register_active`
unfoldable pub register_active : String → ℕ → ℕ → ℕ → Coordinator → Coordinator
register_active bot_id interval weight now c =
    let bot : ActiveBot = record {
      bot_id = bot_id;
      loop_interval = interval;
      last_cycle = now;
      weight_per_cycle = weight;
    } in
    record c { active = insert bot_id bot c.active }

-- `unregister_active`
unfoldable pub unregister_active : String → Coordinator → Coordinator
unregister_active bot_id c = record c {
  active = erase bot_id c.active;
  staged = erase bot_id c.staged;
}

-- `report_cycle`
unfoldable pub report_cycle : String → ℕ → Coordinator → Coordinator
report_cycle bot_id now c = elim (lookup bot_id c.active) [
  | none ↦ c
  | some bot ↦ record c { active = insert bot_id (record bot { last_cycle = now }) c.active }
]

-- `update_weight`
unfoldable pub update_weight : ℕ → Coordinator → Coordinator
update_weight weight c = record c { current_weight = weight }

-- `weight_pct < p`
abbrev pub pct_below : ℕ → Coordinator → Bool
pct_below p c = ltb (c.current_weight * 100) (p * c.weight_limit)

-- `last_cycle_ts + loop_interval_sec`
abbrev pub next_cycle : ActiveBot → ℕ
next_cycle bot = bot.last_cycle + bot.loop_interval

-- `abs(a - b)`
abbrev pub distance : ℕ → ℕ → ℕ
distance a b = a - b + (b - a)

-- The number of other bots whose next cycle is within 5 seconds.
unfoldable pub collisions : String → ℕ → Dict ActiveBot → ℕ
collisions bot_id mine [] = 0
collisions bot_id mine ((k, other) ∷ d) =
    let rest = collisions bot_id mine d in
    if not (same other.bot_id bot_id) && ltb (distance (next_cycle other) mine) 5000
    then rest + 1
    else rest

abbrev pub min_frac : Frac → Frac → Frac
min_frac a b = if leb_frac a b then a else b

-- `min(10, collisions * 2 * min(1, weight_pct / 95))`
unfoldable pub jitter_of : ℕ → Coordinator → Frac
jitter_of count c =
    let pressure =
      min_frac (of_ℕ 1) (record { num = c.current_weight * 100; den = c.weight_limit * 95 }) in
    min_frac (of_ℕ 10) (mul (of_ℕ (count * 2)) pressure)

-- `compute_jitter`
unfoldable pub compute_jitter : String → Coordinator → Frac
compute_jitter bot_id c = elim (lookup bot_id c.active) [
  | none ↦ of_ℕ 0
  | some bot ↦
      if pct_below 70 c
      then of_ℕ 0
      else let count = collisions bot_id (next_cycle bot) c.active in
        if count == 0 then of_ℕ 0 else jitter_of count c
]
