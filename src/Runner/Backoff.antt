-- ===== src/Runner/Backoff.antt =====
-- The errors in a row of runtime/bot/_base_runner.py and the sleeps after them.
use pecunator_accu_monetas.Prelude.{
  ℕ, zero, suc, ◌+◌, ◌*◌, ◌^◌, ◌≤◌, ◌≡◌, refl, true, Bool-cases, inl, inr, List, [], ◌∷◌, leb,
  leb→le, min, max, if◌then◌else◌, arith,
}
use pecunator_accu_monetas.Prelude.Frac.{Frac, of_ℕ, is_pos, leb_frac, ◌≤f◌}
use pecunator_accu_monetas.Fuse.Api
use pecunator_accu_monetas.WeightGovernor.{Permission}
use pecunator_accu_monetas.Coordinator.State.{compute_jitter, jitter_of}
use pecunator_accu_monetas.Runner.State.{Config, World, Turn, Outcome, Shared, Reply}
use pecunator_accu_monetas.Runner.Loop.{
  with_jitter, error_sleep, after_report, after_error, after_cycle, cycle, permitted, fused, turn,
  loop, goes_on,
}

-- The errors in a row after an outcome, and after outcomes in the order of time.
abbrev pub streak_after : ℕ → Outcome → ℕ
streak_after n (Outcome.ran s) = 0
streak_after n (Outcome.failed s) = n + 1
streak_after n _ = n

abbrev pub streak_after_all : ℕ → List Outcome → ℕ
streak_after_all n [] = n
streak_after_all n (o ∷ os) = streak_after_all (streak_after n o) os

-- The seconds of a bot whose interval is at least a minute after its n-th error in a row.
abbrev pub retry_seconds : ℕ → ℕ
retry_seconds n = if leb n 5 then 2 ^ n else 60

-- The sleep after the n-th error in a row: these seconds, and at most 10 more.
abbrev pub IsRetry : ℕ → Frac → Type 0
IsRetry n s = (of_ℕ (retry_seconds n) ≤f s) × (s ≤f of_ℕ (retry_seconds n + 10))

abbrev pub SleepsLong : ℕ → Outcome → Type 0
SleepsLong n (Outcome.failed s) = IsRetry (n + 1) s
SleepsLong n _ = Unit

abbrev pub AllSleepLong : ℕ → List Outcome → Type 0
AllSleepLong n [] = Unit
AllSleepLong n (o ∷ os) = SleepsLong n o × AllSleepLong (streak_after n o) os

-- The step of the loop that is stated of each of its functions.
abbrev Steps : ℕ → World × Outcome → Type 0
Steps n (w, o) = (w.runner.error_streak ≡ streak_after n o) × SleepsLong n o

jitter_at_most :
    (c : Config) (s : Shared) → leb_frac (compute_jitter c.bot_key s.coordinator) (of_ℕ 10) ≡ true
unfolding compute_jitter jitter_of
jitter_at_most c s = ground arith

sleep_of_power :
    (interval m : ℕ)
    → 60000 ≤ interval
    → min 60000 (max 2000 (min interval (2 ^ min (m + 6) 6 * 1000))) ≡ 60000
sleep_of_power interval m h = let six : min (m + 6) 6 ≡ 6 = omega arith in rw six (omega (arith, h))

error_sleep_seconds :
    (c : Config) (n : ℕ)
    → 60000 ≤ c.loop_interval
    → error_sleep c (suc n) ≡ retry_seconds (suc n) * 1000
unfolding error_sleep
error_sleep_seconds c zero h = ground arith
error_sleep_seconds c (suc zero) h = ground arith
error_sleep_seconds c (suc (suc zero)) h = ground arith
error_sleep_seconds c (suc (suc (suc zero))) h = ground arith
error_sleep_seconds c (suc (suc (suc (suc zero)))) h = ground arith
error_sleep_seconds c (suc (suc (suc (suc (suc n))))) h =
    let sleep = sleep_of_power c.loop_interval n h in ground arith

error_sleep_next :
    (c : Config) (n : ℕ)
    → 60000 ≤ c.loop_interval
    → error_sleep c (n + 1) ≡ retry_seconds (n + 1) * 1000
error_sleep_next c n h =
    let next : n + 1 ≡ suc n = omega arith in rw next (error_sleep_seconds c n h)

add_within :
    (sec sleep n d : ℕ)
    → sleep ≡ sec * 1000
    → n * 1 ≤ 10 * d
    → (sec * (1000 * d) ≤ (sleep * d + n * 1000) * 1)
      × ((sleep * d + n * 1000) * 1 ≤ (sec + 10) * (1000 * d))
add_within sec sleep n d h k =
    let product : sleep * d ≡ sec * d * 1000 = rw h (grind arith) in grind arith

with_jitter_within :
    (c : Config) (s : Shared) (sec sleep : ℕ)
    → sleep ≡ sec * 1000
    → (of_ℕ sec ≤f with_jitter c s sleep) × (with_jitter c s sleep ≤f of_ℕ (sec + 10))
unfolding with_jitter
with_jitter_within c s sec sleep h =
    let jitter = compute_jitter c.bot_key s.coordinator in
    let low = leb→le (jitter.num * 1) (10 * jitter.den) (jitter_at_most c s) in
    let sum = add_within sec sleep jitter.num jitter.den h low in
    elim (Bool-cases (is_pos jitter)) [
      | inl late ↦ simp (late) (sum.0, sum.1)
      | inr soon ↦ simp (soon, h) (omega arith, omega arith)
    ]

module _ (c : Config) (long : 60000 ≤ c.loop_interval) where
  after_cycle-Steps :
      (now : ℕ) (r : Reply) (w : World) → Steps w.runner.error_streak (after_cycle c now r w)
  unfolding after_cycle after_report after_error
  after_cycle-Steps now (Reply.returned rep) w = (refl, tt)
  after_cycle-Steps now (Reply.raised e) w =
      let n = w.runner.error_streak in
      (
        refl,
        with_jitter_within c w.shared (retry_seconds (n + 1)) (error_sleep c (n + 1))
            (error_sleep_next c n long),
      )
  after_cycle-Steps now Reply.cancelled w = (refl, tt)

  cycle-Steps : (t : Turn) (w : World) → Steps w.runner.error_streak (cycle c t w)
  unfolding cycle
  cycle-Steps t w = after_cycle-Steps t.done (t.run_once w.shared).1 _

  permitted-Steps :
      (t : Turn) (p : Permission) (w : World) → Steps w.runner.error_streak (permitted c t p w)
  unfolding permitted
  permitted-Steps t Permission.proceed w = cycle-Steps t w
  permitted-Steps t (Permission.wait f) w = elim (Bool-cases t.stop_in_wait) [
    | inl stop ↦ simp stop (refl, tt)
    | inr on ↦ simp on (cycle-Steps t (record w { shared = t.in_wait w.shared }))
  ]
  permitted-Steps t Permission.block w = (refl, tt)

  fused-Steps : (t : Turn) (w : World) → Steps w.runner.error_streak (fused c t w)
  unfolding fused
  fused-Steps t w = elim (Bool-cases (Api.is_tripped t.now t.reset_now w.shared.fuses).1) [
    | inl blocked ↦ simp blocked (refl, tt)
    | inr free ↦ simp free (permitted-Steps t _ _)
  ]

  turn-Steps : (t : Turn) (w : World) → Steps w.runner.error_streak (turn c t w)
  unfolding turn
  turn-Steps t w = elim (Bool-cases t.stop_set) [
    | inl stop ↦ simp stop (refl, tt)
    | inr on ↦ elim (Bool-cases t.panic_lock) [
      | inl panic ↦ simp (on, panic) (refl, tt)
      | inr calm ↦ simp (on, calm) (fused-Steps t (record w { shared = t.before w.shared }))
    ]
  ]

  -- The streak of the loop counts the errors in a row, and it sleeps after each as the streak tells:
  -- whatever comes, a bot whose interval is at least a minute sleeps after its n-th error in a row for 2, 4,
  -- 8, 16 or 32 seconds and from the sixth on for 60, with at most 10 seconds of jitter added, and a
  -- report starts the count again.
  pub loop_backs_off :
      (ts : List Turn) (w : World)
      → let (w', os) = loop c ts w in
        (w'.runner.error_streak ≡ streak_after_all w.runner.error_streak os)
        × AllSleepLong w.runner.error_streak os
  unfolding loop
  loop_backs_off [] w = (refl, tt)
  loop_backs_off (t ∷ ts) w =
      let (w', o) = turn c t w in
      let (count, sleeps) = turn-Steps t w in
      let (last, os) = loop c ts w' in
      let m = streak_after w.runner.error_streak o in
      let (counts, rest) : (last.runner.error_streak ≡ streak_after_all m os) × AllSleepLong m os =
        rw⁻¹ count (loop_backs_off ts w') in
      elim (Bool-cases (goes_on o)) [
        | inl on ↦ simp (on) (counts, (sleeps, rest))
        | inr off ↦ simp (off) (count, (sleeps, tt))
      ]
