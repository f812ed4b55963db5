-- ===== src/Runner/Runs.antt =====
-- Which rounds of the loop of runtime/bot/_base_runner.py run a cycle.
use pecunator_accu_monetas.Prelude.{
  ℕ, ◌+◌, ◌*◌, ◌<◌, ◌≤◌, ◌≡◌, ◌↔◌, ◌≢◌, refl, Bool, true, false, arith,
}
use pecunator_accu_monetas.Prelude.Int.{pos, pos_part, neg_part, ◌≤ℤ◌}
use pecunator_accu_monetas.Fuse.Api
use pecunator_accu_monetas.WeightGovernor.{Governor, Permission, request_permission}
use pecunator_accu_monetas.WeightGovernor.Answers.{request_permission_by_weight}
use pecunator_accu_monetas.Runner.State.{Config, World, Reply, Turn, Outcome}
use pecunator_accu_monetas.Runner.Loop.{after_cycle, cycle, permitted, fused, turn}

-- The round reached its cycle.
abbrev pub is_run : Outcome → Bool
is_run (Outcome.ran s) = true
is_run (Outcome.failed s) = true
is_run Outcome.abandoned = true
is_run _ = false

-- The permission lets the bot go, at once or after a wait in which it is not stopped.
abbrev pub LetsGo : Permission → Turn → Type 0
LetsGo Permission.proceed t = Unit
LetsGo (Permission.wait f) t = t.stop_in_wait ≡ false
LetsGo Permission.block t = ⊥

after_cycle_runs :
    (c : Config) (now : ℕ) (r : Reply) (w : World) → is_run (after_cycle c now r w).1 ≡ true
unfolding after_cycle
after_cycle_runs c now (Reply.returned rep) w = refl
after_cycle_runs c now (Reply.raised e) w = refl
after_cycle_runs c now Reply.cancelled w = refl

pub cycle_runs : (c : Config) (t : Turn) (w : World) → is_run (cycle c t w).1 ≡ true
unfolding cycle
cycle_runs c t w = after_cycle_runs c t.done (t.run_once w.shared).1 _

permitted_runs :
    (c : Config) (t : Turn) (p : Permission) (w : World)
    → (is_run (permitted c t p w).1 ≡ true) ↔ LetsGo p t
unfolding permitted
permitted_runs c t Permission.proceed w = (λ h. tt, λ h. cycle_runs c t w)
permitted_runs c t (Permission.wait f) w =
    let runs = cycle_runs c t (record w { shared = t.in_wait w.shared }) in ground arith
permitted_runs c t Permission.block w = ground arith

-- What an answer means, from the weights at which it is `proceed` and `block`.
answer_LetsGo :
    (p : Permission) (t : Turn) (a b used limit : ℕ)
    → ((p ≡ Permission.proceed) ↔ (a ≤ b → used * 2 ≤ limit))
    → ((p ≡ Permission.block) ↔ ((a ≤ b) × (limit * 4 < used * 5)))
    → LetsGo p t
      ↔ ((a ≤ b → used * 5 ≤ limit * 4) × ((a ≤ b) × (limit < used * 2) → t.stop_in_wait ≡ false))
answer_LetsGo Permission.proceed t a b used limit h k =
    let low = h.0 refl in
    (
      λ go. (λ l. omega (arith, low l), λ above. absurd (omega (arith, low above.0, above.1))),
      λ all. tt,
    )
answer_LetsGo (Permission.wait f) t a b used limit h k =
    let no_wait : Permission.wait f ≢ Permission.proceed = λ e. cc in
    let no_block : Permission.wait f ≢ Permission.block = λ e. cc in ground (arith, h.1, k.1)
answer_LetsGo Permission.block t a b used limit h k =
    let high = k.0 refl in (λ go. absurd go, λ all. omega (arith, all.0 high.0, high.1))

LetsGo-request_permission :
    (g : Governor) (t : Turn)
    → LetsGo (request_permission g) t ↔ (
        (pos 1 ≤ℤ g.weight_limit → g.current_weight * 5 ≤ pos_part g.weight_limit * 4)
        × ((pos 1 ≤ℤ g.weight_limit) × (pos_part g.weight_limit < g.current_weight * 2)
            → t.stop_in_wait ≡ false))
LetsGo-request_permission g t =
    let (proceeds, blocks, range) = request_permission_by_weight g in
    answer_LetsGo (request_permission g) t (1 + neg_part g.weight_limit)
      (pos_part g.weight_limit + 0) g.current_weight (pos_part g.weight_limit) proceeds blocks

fused_runs :
    (c : Config) (t : Turn) (w : World)
    → (is_run (fused c t w).1 ≡ true) ↔ (
        ((Api.is_tripped t.now t.reset_now w.shared.fuses).1 ≡ false)
        × LetsGo (request_permission w.shared.governor) t)
unfolding fused
fused_runs c t w =
    let s = w.shared in
    let runs =
      permitted_runs c t (request_permission s.governor)
        (record w { shared = record s { fuses = (Api.is_tripped t.now t.reset_now s.fuses).0 } }) in
    ground arith

-- A round of the loop runs its cycle exactly if the bot is not stopped, there is no panic lock, the API
-- fuse is not tripped at the check, the used weight is at most four fifths of a positive limit, and
-- the bot is not stopped in the wait that a weight above half of the limit brings. What the other
-- bots do to the fuse in that wait plays no part.
pub turn_runs_iff :
    (c : Config) (t : Turn) (w : World)
    → let s = t.before w.shared in
      let limit = s.governor.weight_limit in
      let used = s.governor.current_weight in
      (is_run (turn c t w).1 ≡ true) ↔ (
        (t.stop_set ≡ false)
        × (t.panic_lock ≡ false)
        × ((Api.is_tripped t.now t.reset_now s.fuses).1 ≡ false)
        × (pos 1 ≤ℤ limit → used * 5 ≤ pos_part limit * 4)
        × ((pos 1 ≤ℤ limit) × (pos_part limit < used * 2) → t.stop_in_wait ≡ false))
unfolding turn
turn_runs_iff c t w =
    let s = t.before w.shared in
    let runs = fused_runs c t (record w { shared = s }) in
    let go = LetsGo-request_permission s.governor t in ground arith
