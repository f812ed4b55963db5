-- ===== src/Runner/Silence.antt =====
-- The loop of runtime/bot/_base_runner.py while the API fuse is tripped.
use pecunator_accu_monetas.Prelude.{
  ℕ, ◌-◌, ◌<◌, ◌≡◌, refl, true, false, Bool-cases, inl, inr, List, [], ◌∷◌, All, All-map, arith,
}
use pecunator_accu_monetas.Prelude.Int.{ℤ}
use pecunator_accu_monetas.Fuse.Breaker
use pecunator_accu_monetas.Fuse.Breaker.{Breaker, ms}
use pecunator_accu_monetas.Fuse.Api
use pecunator_accu_monetas.Fuse.Api.{Fuses}
use pecunator_accu_monetas.Fuse.Calls
use pecunator_accu_monetas.Fuse.Calls.{Call}
use pecunator_accu_monetas.Runner.State.{Config, World, Turn, Shared}
use pecunator_accu_monetas.Runner.Loop.{fused, turn, loop, goes_on}
use pecunator_accu_monetas.Runner.Runs.{is_run}

-- The breaker is tripped, and a reading falls within its cooldown.
abbrev pub IsCooling : Breaker → ℕ → Type 0
IsCooling b now = (b.tripped ≡ true) × (now - b.tripped_at < ms b.current_cooldown)

-- What the other bots did before a round leaves this state of the API fuse.
abbrev pub Leaves : Breaker → Turn → Type 0
Leaves b t = (s : Shared) → s.fuses.api ≡ b → (t.before s).fuses.api ≡ b

-- A call of the API fuse during the cooldown, other than the manual reset.
abbrev pub IsPassive : Breaker → Call → Type 0
IsPassive b (Call.check_weight used now now') = IsCooling b now
IsPassive b (Call.on_error_code code now now') = b.tripped ≡ true
IsPassive b (Call.is_tripped now now') = IsCooling b now
IsPassive b (Call.manual_reset now) = ⊥

pub passive_call_leaves :
    (b : Breaker) (call : Call) (s : Fuses)
    → s.api ≡ b
    → IsPassive b call
    → (Calls.apply call s).api ≡ b
unfolding Calls.apply Api.check_weight Api.on_error_code Api.is_tripped Api.trip Breaker.is_tripped
passive_call_leaves b (Call.check_weight used now now') s h p = ground arith
passive_call_leaves b (Call.on_error_code code now now') s h p = ground arith
passive_call_leaves b (Call.is_tripped now now') s h p = ground arith
passive_call_leaves b (Call.manual_reset now) s h p = absurd p

pub passive_calls_leave :
    (b : Breaker) (calls : List Call) (s : Fuses)
    → s.api ≡ b
    → All (IsPassive b) calls
    → (Calls.apply_all calls s).api ≡ b
unfolding Calls.apply_all
passive_calls_leave b [] s h p = h
passive_calls_leave b (call ∷ calls) s h (p, ps) =
    passive_calls_leave b calls (Calls.apply call s) (passive_call_leaves b call s h p) ps

cooling_blocks :
    (now now' : ℕ) (s : Fuses)
    → IsCooling s.api now
    → ((Api.is_tripped now now' s).0.api ≡ s.api) × ((Api.is_tripped now now' s).1 ≡ true)
unfolding Api.is_tripped Breaker.is_tripped
cooling_blocks now now' s h = ground arith

fused_cooling :
    (c : Config) (t : Turn) (w : World)
    → IsCooling w.shared.fuses.api t.now
    → (is_run (fused c t w).1 ≡ false) × ((fused c t w).0.shared.fuses.api ≡ w.shared.fuses.api)
unfolding fused
fused_cooling c t w h =
    let blocks = cooling_blocks t.now t.reset_now w.shared.fuses h in ground arith

turn_cooling :
    (b : Breaker) (c : Config) (t : Turn) (w : World)
    → w.shared.fuses.api ≡ b
    → Leaves b t
    → IsCooling b t.now
    → (is_run (turn c t w).1 ≡ false) × ((turn c t w).0.shared.fuses.api ≡ b)
unfolding turn
turn_cooling b c t w e leaves h =
    let kept = leaves w.shared e in
    let skipped = fused_cooling c t (record w { shared = t.before w.shared }) in ground arith

-- No outcome of the loop is a cycle, and the fuse is left as it was.
loop_cooling :
    (b : Breaker) (c : Config) (ts : List Turn) (w : World)
    → w.shared.fuses.api ≡ b
    → All (Leaves b) ts
    → All (λ t. IsCooling b t.now) ts
    → All (λ o. is_run o ≡ false) (loop c ts w).1
unfolding loop
loop_cooling b c [] w e leaves h = tt
loop_cooling b c (t ∷ ts) w e (leaf, leaves) (h, hs) =
    let (skipped, kept) = turn_cooling b c t w e leaf h in
    let rest = loop_cooling b c ts (turn c t w).0 kept leaves hs in
    elim (Bool-cases (goes_on (turn c t w).1)) [
      | inl g ↦ rw g (skipped, rest)
      | inr g ↦ rw g (skipped, tt)
    ]

tripped_by_fatal :
    (code : ℤ) (now now' : ℕ) (s : Fuses)
    → Api.is_fatal_code code ≡ true
    → s.api.tripped ≡ false
    → let b = (Api.on_error_code code now now' s).0.api in
      (b.tripped ≡ true) × (b.tripped_at ≡ now) × (b.current_cooldown ≡ s.api.max_cooldown_sec)
unfolding Api.on_error_code Api.trip Breaker.trip
tripped_by_fatal code now now' s fatal closed = ground arith

-- Once a fatal error code of the exchange has reached a closed API fuse at `now`, no round of a bot's
-- loop runs its cycle whose check of the fuse comes before the longest cooldown has passed since
-- `now`, whatever the governor says; the other bots may do anything that leaves the API fuse as it is.
pub fatal_code_silences :
    (c : Config) (code : ℤ) (now now' : ℕ) (w : World) (ts : List Turn)
    → Api.is_fatal_code code ≡ true
    → w.shared.fuses.api.tripped ≡ false
    → let fuses = (Api.on_error_code code now now' w.shared.fuses).0 in
      All (Leaves fuses.api) ts
      → All (λ t. t.now - now < ms w.shared.fuses.api.max_cooldown_sec) ts
      → All
          (λ o. is_run o ≡ false)
          (loop c ts (record w { shared = record w.shared { fuses = fuses } })).1
fatal_code_silences c code now now' w ts fatal closed leaves early =
    let fuses = (Api.on_error_code code now now' w.shared.fuses).0 in
    let (on, at, cooldown) = tripped_by_fatal code now now' w.shared.fuses fatal closed in
    loop_cooling fuses.api c ts (record w { shared = record w.shared { fuses = fuses } }) refl
      leaves
      (All-map (λ t. t.now - now < ms w.shared.fuses.api.max_cooldown_sec)
        (λ t. IsCooling fuses.api t.now) ts (λ t h. (on, rw (at, cooldown) h)) early)
