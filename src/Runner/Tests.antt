-- ===== src/Runner/Tests.antt =====
-- Rounds of the loop of runtime/bot/_base_runner.py for one bot.
use pecunator_accu_monetas.Prelude.{
  ℕ, ◌*◌, ◌<◌, ◌≤◌, ◌≡◌, ◌↔◌, ◌⊎◌, refl, true, false, none, List, [], ◌∷◌, All, arith,
}
use pecunator_accu_monetas.Prelude.Int.{pos, ◌≤ℤ◌}
use pecunator_accu_monetas.Fuse.Breaker
use pecunator_accu_monetas.Fuse.Breaker.{Breaker, ms}
use pecunator_accu_monetas.Fuse.Api
use pecunator_accu_monetas.Fuse.Api.{Fuses}
use pecunator_accu_monetas.Fuse.Calls.{Call, apply_all}
use pecunator_accu_monetas.WeightGovernor.{Governor}
use pecunator_accu_monetas.Coordinator.State.{Coordinator}
use pecunator_accu_monetas.Runner.State.{Config, World, Turn, Outcome, Shared, Reply}
use pecunator_accu_monetas.Runner.State
use pecunator_accu_monetas.Runner.Loop.{loop, turn}
use pecunator_accu_monetas.Runner.Runs.{is_run, turn_runs_iff}
use pecunator_accu_monetas.Runner.Silence.{IsCooling, passive_calls_leave, fatal_code_silences}
use pecunator_accu_monetas.Prelude.Frac.{of_ℕ}
use pecunator_accu_monetas.Runner.Risk
use pecunator_accu_monetas.Runner.Risk.{next_peak, drawdown, register_equity}
use pecunator_accu_monetas.Runner.Drawdown
use pecunator_accu_monetas.Runner.Drawdown.{AllFallAtMost, HasFall, max_drawdown_is_greatest_fall}
use pecunator_accu_monetas.Runner.Backoff.{streak_after_all, AllSleepLong, loop_backs_off}

abbrev closed_api : Breaker
closed_api = record {
  threshold = 8000;
  base_cooldown_sec = 300;
  limit = 6000;
  max_cooldown_sec = 3600;
  tripped = false;
  tripped_at = 0;
  reset_at = 0;
  current_cooldown = 300;
  trip_reason = none;
  trip_count = 0;
  consecutive_streak = 0;
}

abbrev fuses : Fuses
fuses = record { api = closed_api; order = closed_api; alerts = [] }

-- Three quarters of the limit are used.
abbrev governor : Governor
governor = record { weight_limit = pos 6000; current_weight = 4500; last_update = 0; bots = [] }

abbrev coordinator : Coordinator
coordinator = record {
  weight_limit = 6000;
  staged = [];
  active = [];
  current_weight = 0;
  callbacks = [];
}

abbrev world : World
world = record {
  runner = State.init;
  shared = record { fuses = fuses; governor = governor; coordinator = coordinator; decisions = [] };
}

abbrev config : Config
config = record { bot_key = "louise:BTCUSDT"; symbol = "BTCUSDT"; loop_interval = 450000 }

-- A round at a reading, with calls of the other bots before it and the answer of its cycle.
abbrev round : ℕ → List Call → Reply → Turn
round now calls reply = record {
  before = λ s. record s { fuses = apply_all calls s.fuses };
  stop_set = false;
  panic_lock = false;
  now = now;
  reset_now = now;
  remaining_now = now;
  desync = 7000;
  in_wait = λ s. record s { fuses = (Api.on_error_code (pos 429) now now s.fuses).0 };
  stop_in_wait = false;
  run_once = λ s. (s, reply);
  has_client = true;
  done = now;
}

-- The weight lets the bot go after a wait, in which the exchange answers another bot with 429.
turn_runs_iff_example : (is_run (turn config (round 1000 [] Reply.cancelled) world).1 ≡ true) ↔ (
    (false ≡ false)
    × (false ≡ false)
    × ((Api.is_tripped 1000 1000 (apply_all [] fuses)).1 ≡ false)
    × (pos 1 ≤ℤ pos 6000 → 4500 * 5 ≤ 6000 * 4)
    × ((pos 1 ≤ℤ pos 6000) × (6000 < 4500 * 2) → false ≡ false))
turn_runs_iff_example = turn_runs_iff config (round 1000 [] Reply.cancelled) world

abbrev fatal : Fuses
fatal = (Api.on_error_code (pos 418) 5000 5000 fuses).0

closed_by_fatal :
    (fatal.api.tripped ≡ true) × (fatal.api.tripped_at ≡ 5000) × (fatal.api.current_cooldown ≡ 3600)
unfolding Api.on_error_code Api.trip Breaker.trip
closed_by_fatal = (refl, refl, refl)

in_cooldown : IsCooling fatal.api 800000
in_cooldown = let (on, at, cooldown) = closed_by_fatal in (on, rw (at, cooldown) (omega arith))

abbrev silent_rounds : List Turn
silent_rounds =
    round 6000 [] (Reply.raised "no reply")
    ∷ round 900000 (Call.is_tripped 800000 800000 ∷ []) (Reply.returned [])
    ∷ []

fatal_code_silences_example :
    All
      (λ o. is_run o ≡ false)
      (loop config silent_rounds
        (record world { shared = record world.shared { fuses = fatal } })).1
fatal_code_silences_example =
    fatal_code_silences config (pos 418) 5000 5000 world silent_rounds refl refl
      (
        λ s h. passive_calls_leave fatal.api [] s.fuses h tt,
        (
          λ s h.
              passive_calls_leave fatal.api (Call.is_tripped 800000 800000 ∷ []) s.fuses h
                (in_cooldown, tt),
          tt,
        ),
      )
      (omega arith, (omega arith, tt))

abbrev failing_rounds : List Turn
failing_rounds =
    round 1000 [] (Reply.raised "no reply")
    ∷ round 4000 [] (Reply.raised "no reply")
    ∷ round 9000 [] (Reply.returned [])
    ∷ []

loop_backs_off_example :
    let (w, os) = loop config failing_rounds world in
    (w.runner.error_streak ≡ streak_after_all 0 os) × AllSleepLong 0 os
unfolding State.init
loop_backs_off_example = loop_backs_off config (omega arith) failing_rounds world

-- The equities 100, 120, 90, 110 and 99: the greatest fall is from 120 to 90.
abbrev equities : List ℕ
equities = 99 ∷ 110 ∷ 90 ∷ 120 ∷ 100 ∷ []

drawdown_run : (Drawdown.run (of_ℕ 0) equities).max_drawdown ≡ record { num = 30; den = 120 }
unfolding Risk.init register_equity next_peak drawdown
drawdown_run = refl

max_drawdown_is_greatest_fall_example :
    let m = (Drawdown.run (of_ℕ 0) equities).max_drawdown in
    (0 < m.den) × AllFallAtMost m equities × ((m ≡ of_ℕ 0) ⊎ HasFall m equities)
max_drawdown_is_greatest_fall_example = max_drawdown_is_greatest_fall (of_ℕ 0) equities
