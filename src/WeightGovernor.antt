-- ===== src/WeightGovernor.antt =====
-- The adaptive throttle of runtime/core/weight_governor.py: the used weight as a fraction of the
-- limit, the three zones, the permission that a bot gets, and the registry of bots.
-- The source computes with floats; here the fractions are exact, a numerator over a denominator.
-- The estimate of the weight per minute, the status dict and the log lines are not modelled.
pub mod Answers
pub mod Registry
mod Tests
use pecunator_accu_monetas.Prelude.{ℕ, ◌+◌, ◌-◌, ◌*◌, Bool, leb, if◌then◌else◌}
use pecunator_accu_monetas.Prelude.Int.{ℤ, pos, pos_part, leb_ℤ}
use pecunator_accu_monetas.Prelude.Dict.{Dict, insert, erase}
use Prim.Native.String.{String}

-- A bot's entry; times in milliseconds.
pub record BotInfo : Type 0 where
  pub weight_per_cycle : ℕ
  pub loop_interval : ℕ
  pub registered_at : ℕ

pub record Governor : Type 0 where
  pub weight_limit : ℤ
  pub current_weight : ℕ
  pub last_update : ℕ
  pub bots : Dict BotInfo

pub record Fraction : Type 0 where
  pub num : ℕ
  pub den : ℕ

pub data Zone : Type 0 where
  green yellow red : Zone

-- 0.0, a number of seconds, or infinity.
pub data Permission : Type 0 where
  proceed : Permission
  wait : Fraction → Permission
  block : Permission

-- `update_weight`
unfoldable pub update_weight : ℤ → ℕ → Governor → Governor
update_weight used now g = record g { current_weight = pos_part used; last_update = now }

-- `_pct`
unfoldable pub pct : Governor → Fraction
pct g =
    if leb_ℤ g.weight_limit (pos 0)
    then record { num = 0; den = 1 }
    else record { num = g.current_weight; den = pos_part g.weight_limit }

-- `f <= n / d`
abbrev pub at_most : Fraction → ℕ → ℕ → Bool
at_most f n d = leb (f.num * d) (n * f.den)

-- The zones: up to 0.50, up to 0.80, and above.
unfoldable pub zone_of : Fraction → Zone
zone_of f =
    if at_most f 50 100 then Zone.green else if at_most f 80 100 then Zone.yellow else Zone.red

-- `_zone`
unfoldable pub zone : Governor → Zone
zone g = zone_of (pct g)

-- `(pct - 0.50) / (0.80 - 0.50)`, for a fraction above 0.50.
unfoldable pub pressure : Fraction → Fraction
pressure f = record { num = (f.num * 100 - f.den * 50) * 100; den = f.den * 100 * 30 }

-- `2.0 + pressure * 28.0`
unfoldable pub throttle : Fraction → Fraction
throttle p = record { num = 2 * p.den + p.num * 28; den = p.den }

-- The answer in each zone.
unfoldable pub permission_in : Zone → Fraction → Permission
permission_in Zone.green f = Permission.proceed
permission_in Zone.yellow f = Permission.wait (throttle (pressure f))
permission_in Zone.red f = Permission.block

-- `request_permission`
unfoldable pub request_permission : Governor → Permission
request_permission g = permission_in (zone g) (pct g)

-- `register_bot`
unfoldable pub register_bot : String → ℕ → ℕ → ℕ → Governor → Governor
register_bot bot_id weight_per_cycle loop_interval now g = record g {
  bots =
      insert bot_id
        (record {
          weight_per_cycle = weight_per_cycle;
          loop_interval = loop_interval;
          registered_at = now;
        })
        g.bots;
}

-- `unregister_bot`
unfoldable pub unregister_bot : String → Governor → Governor
unregister_bot bot_id g = record g { bots = erase bot_id g.bots }
