-- ===== src/Symmetry/Streaks.antt =====
-- The failure counts of runtime/core/symmetry_guard.py against the failures in a row.
use pecunator_accu_monetas.Prelude.{
  ℕ, ◌+◌, ◌≡◌, refl, ap, ◌∙◌, List, [], ◌∷◌, arith, if◌then◌else◌, Bool-cases, inl, inr, get_or,
  Bool, true, false,
}
use pecunator_accu_monetas.Prelude.Codes.{same_codes, same_codes_eq, find, put, find-put}
use pecunator_accu_monetas.Symmetry.State.{
  Guard, init, reset_pause, count_of, extract_symbol, failure_reason,
}
use pecunator_accu_monetas.Symmetry.Pauses.{
  record_order_success, record_order_failure, escalate, pause_symbol, pause_hub, Tick, tick,
}

-- The guard's calls: an order that succeeds, or fails with an error, a reset, and the hub's tick.
pub data Event : Type 0 where
  success : List ℕ → Event
  failure : List ℕ → List ℕ → ℕ → Event
  reset : Event
  ticks : ℕ → Event

abbrev pub apply : Event → Guard → Guard
apply (Event.success bot_key) g = record_order_success bot_key g
apply (Event.failure bot_key error now) g = record_order_failure bot_key error now g
apply Event.reset g = reset_pause g
apply (Event.ticks now) g = (tick now g).0

-- The guard after events, the newest first.
abbrev pub run : List Event → Guard
run [] = init
run (e ∷ es) = apply e (run es)

-- The tick retries: it lifts the pause of the hub by itself.
abbrev pub is_retry : Tick → Bool
is_retry (Tick.auto_retry attempts) = true
is_retry _ = false

-- The failures of a bot since its last success, the last reset or the last tick that retried.
abbrev pub streak : List ℕ → List Event → ℕ
streak key [] = 0
streak key (Event.success k ∷ es) = if same_codes k key then 0 else streak key es
streak key (Event.failure k error now ∷ es) =
    if same_codes k key then streak key es + 1 else streak key es
streak key (Event.reset ∷ es) = 0
streak key (Event.ticks now ∷ es) = if is_retry (tick now (run es)).1 then 0 else streak key es

escalate_counts :
    (symbol bot_key error reason : List ℕ) (now : ℕ) (g : Guard)
    → (escalate symbol bot_key error reason now g).failure_counts ≡ g.failure_counts
unfolding escalate pause_symbol pause_hub
escalate_counts [] bot_key error reason now g = refl
escalate_counts (c ∷ cs) bot_key error reason now g = ground arith

failure_counts_after :
    (bot_key error : List ℕ) (now : ℕ) (g : Guard)
    → (record_order_failure bot_key error now g).failure_counts
      ≡ put bot_key (count_of bot_key g + 1) g.failure_counts
unfolding record_order_failure
failure_counts_after bot_key error now g =
    let count = count_of bot_key g + 1 in
    let kept =
      escalate_counts (extract_symbol bot_key) bot_key error (failure_reason bot_key count error)
        now (record g { failure_counts = put bot_key count g.failure_counts }) in
    ground arith

success_counts_after :
    (bot_key : List ℕ) (g : Guard)
    → (record_order_success bot_key g).failure_counts ≡ put bot_key 0 g.failure_counts
unfolding record_order_success
success_counts_after bot_key g = ground arith

-- The count of a key after its entry is written.
counted_put :
    (k key : List ℕ) (n : ℕ) (d : List (List ℕ × ℕ))
    → get_or (find key (put k n d)) 0 ≡ (if same_codes k key then n else get_or (find key d) 0)
counted_put k key n d = elim (Bool-cases (same_codes k key)) [
  | inl e ↦ ap (λ o. get_or o 0) (find-put k key n d) ∙ rw (e) refl
  | inr e ↦ ap (λ o. get_or o 0) (find-put k key n d) ∙ rw (e) refl
]

one_more :
    (k key : List ℕ) (g : Guard) (n : ℕ)
    → count_of key g ≡ n
    → (if same_codes k key then count_of k g + 1 else count_of key g)
      ≡ (if same_codes k key then n + 1 else n)
one_more k key g n h = elim (Bool-cases (same_codes k key)) [
  | inl e ↦
      let same : k ≡ key = same_codes_eq k key e in
      rw (e) (ap (λ m. m + 1) (ap (λ j. count_of j g) same ∙ h))
  | inr e ↦ rw (e) h
]

count_after_tick :
    (key : List ℕ) (now : ℕ) (g : Guard)
    → count_of key (tick now g).0 ≡ (if is_retry (tick now g).1 then 0 else count_of key g)
unfolding tick find
count_after_tick key now g = ground arith

-- After any successes, failures, resets and ticks, the failure count of a bot is the number of its
-- failures in a row: since its last success, the last reset, or the last tick that answered
-- AUTO_RETRY.
pub counts_are_streaks : (key : List ℕ) (es : List Event) → count_of key (run es) ≡ streak key es
unfolding init reset_pause find
counts_are_streaks key [] = refl
counts_are_streaks key (Event.success k ∷ es) =
    let before = counts_are_streaks key es in
    ap (λ d. get_or (find key d) 0) (success_counts_after k (run es))
    ∙ counted_put k key 0 (run es).failure_counts
    ∙ ap (λ n. if same_codes k key then 0 else n) before
counts_are_streaks key (Event.failure k error now ∷ es) =
    let before = counts_are_streaks key es in
    ap (λ d. get_or (find key d) 0) (failure_counts_after k error now (run es))
    ∙ counted_put k key (count_of k (run es) + 1) (run es).failure_counts
    ∙ one_more k key (run es) (streak key es) before
counts_are_streaks key (Event.reset ∷ es) = refl
counts_are_streaks key (Event.ticks now ∷ es) =
    let before = counts_are_streaks key es in
    count_after_tick key now (run es)
    ∙ ap (λ n. if is_retry (tick now (run es)).1 then 0 else n) before
