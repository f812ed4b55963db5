-- ===== src/Runner/Loop.antt =====
-- `_loop` of runtime/bot/_base_runner.py, one round at a time. The guards of the loop against modules that
-- cannot be called are not modelled.
use pecunator_accu_monetas.Prelude.{
  ℕ, ◌+◌, ◌*◌, ◌^◌, min, max, Bool, true, false, none, some, List, [], ◌∷◌, if◌then◌else◌,
}
use pecunator_accu_monetas.Prelude.Dict.{Dict}
use pecunator_accu_monetas.Prelude.Frac.{Frac, add, is_pos}
use pecunator_accu_monetas.Fuse.Breaker
use pecunator_accu_monetas.Fuse.Api
use pecunator_accu_monetas.WeightGovernor.{Permission, request_permission}
use pecunator_accu_monetas.Coordinator.State.{report_cycle, compute_jitter}
use pecunator_accu_monetas.Runner.State.{Config, Shared, World, Reply, Turn, Outcome, decision_of}
use Prim.Native.String.{String}

-- Milliseconds as seconds.
abbrev pub seconds : ℕ → Frac
seconds n = record { num = n; den = 1000 }

-- The sleep with the coordinator's jitter.
unfoldable pub with_jitter : Config → Shared → ℕ → Frac
with_jitter c s sleep =
    let jitter = compute_jitter c.bot_key s.coordinator in
    if is_pos jitter then add (seconds sleep) jitter else seconds sleep

-- The sleep after an error, by the errors in a row.
unfoldable pub error_sleep : Config → ℕ → ℕ
error_sleep c streak = min 60000 (max 2000 (min c.loop_interval (2 ^ min streak 6 * 1000)))

-- A cycle that returned a report.
unfoldable pub after_report : Config → ℕ → Dict String → World → World
after_report c now rep w = record {
  runner = record w.runner {
    last_report = rep;
    last_error = none;
    last_cycle_ts = some now;
    error_streak = 0;
  };
  shared = record w.shared {
    decisions = decision_of c rep ∷ w.shared.decisions;
    coordinator = report_cycle c.bot_key now w.shared.coordinator;
  };
}

-- A cycle that raised.
unfoldable pub after_error : String → World → World
after_error error w = record w {
  runner = record w.runner {
    last_error = some error;
    error_streak = w.runner.error_streak + 1;
    client = false;
  };
}

unfoldable pub after_cycle : Config → ℕ → Reply → World → World × Outcome
after_cycle c now (Reply.returned rep) w =
    let w' = after_report c now rep w in (w', Outcome.ran (with_jitter c w'.shared c.loop_interval))
after_cycle c now (Reply.raised error) w =
    let w' = after_error error w in
    (w', Outcome.failed (with_jitter c w'.shared (error_sleep c w'.runner.error_streak)))
after_cycle c now Reply.cancelled w = (w, Outcome.abandoned)

-- The cycle itself.
unfoldable pub cycle : Config → Turn → World → World × Outcome
cycle c t w =
    let (shared, reply) = t.run_once w.shared in
    let runner = record w.runner { client = t.has_client } in
    after_cycle c t.done reply (record { runner = runner; shared = shared })

-- The answer of the governor.
unfoldable pub permitted : Config → Turn → Permission → World → World × Outcome
permitted c t Permission.proceed w = cycle c t w
permitted c t (Permission.wait f) w =
    let w' = record w { shared = t.in_wait w.shared } in
    if t.stop_in_wait then (w', Outcome.stopped) else cycle c t w'
permitted c t Permission.block w = (w, Outcome.omitted (seconds c.loop_interval))

-- The check of the fuse, and the governor after it.
unfoldable pub fused : Config → Turn → World → World × Outcome
fused c t w =
    let (fuses, blocked) = Api.is_tripped t.now t.reset_now w.shared.fuses in
    let w' = record w { shared = record w.shared { fuses = fuses } } in
    let remaining = Breaker.remaining_cooldown t.remaining_now fuses.api in
    if blocked
    then (w', Outcome.omitted (seconds (min (remaining + t.desync) c.loop_interval)))
    else permitted c t (request_permission w'.shared.governor) w'

-- One round.
unfoldable pub turn : Config → Turn → World → World × Outcome
turn c t w =
    let w' = record w { shared = t.before w.shared } in
    if t.stop_set
    then (w', Outcome.stopped)
    else (if t.panic_lock then (w', Outcome.halted) else fused c t w')

-- Whether the loop goes on.
abbrev pub goes_on : Outcome → Bool
goes_on Outcome.stopped = false
goes_on Outcome.halted = false
goes_on Outcome.abandoned = false
goes_on _ = true

-- The loop over the rounds that come.
unfoldable pub loop : Config → List Turn → World → World × List Outcome
loop c [] w = (w, [])
loop c (t ∷ ts) w =
    let (w', o) = turn c t w in
    let (last, os) = loop c ts w' in if goes_on o then (last, o ∷ os) else (w', o ∷ [])
