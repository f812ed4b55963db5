-- ===== src/Symmetry/Isolation.antt =====
-- What a failed order pauses in runtime/core/symmetry_guard.py.
use pecunator_accu_monetas.Prelude.{
  ℕ, ◌+◌, ◌≤◌, ◌≡◌, ◌↔◌, ◌⊎◌, ◌≢◌, refl, inl, inr, ap, true, false, List, [], ◌∷◌, arith,
  Bool-cases, leb, get_or, ◌∙◌,
}
use pecunator_accu_monetas.Prelude.Codes.{same_codes, find, put, find-put_other}
use pecunator_accu_monetas.Symmetry.State.{
  Guard, is_recoverable, extract_symbol, count_of, failure_reason,
}
use pecunator_accu_monetas.Symmetry.Pauses.{
  pause_symbol, pause_hub, escalate, record_order_failure, max_failure_streak,
}

escalate_isolated :
    (symbol bot_key error reason : List ℕ) (now : ℕ) (g : Guard)
    → is_recoverable error ≡ true
    → symbol ≢ []
    → let g' = escalate symbol bot_key error reason now g in
      (g'.is_paused ≡ g.is_paused)
      × (g'.failure_counts ≡ g.failure_counts)
      × ((t : List ℕ)
          → same_codes symbol t ≡ false
          → find t g'.paused_symbols ≡ find t g.paused_symbols)
unfolding escalate pause_symbol
escalate_isolated [] bot_key error reason now g h some_symbol = absurd (some_symbol refl)
escalate_isolated (c ∷ cs) bot_key error reason now g h some_symbol =
    rw (h, escalate) (refl, refl, λ t apart. find-put_other (c ∷ cs) t _ g.paused_symbols apart)

-- A failure with a recoverable error, of a bot whose key has a symbol, never pauses the hub, and
-- leaves the pauses of all other symbols and the failure counts of all other bots as they were.
pub failure_isolated :
    (bot_key error : List ℕ) (now : ℕ) (g : Guard)
    → is_recoverable error ≡ true
    → extract_symbol bot_key ≢ []
    → let g' = record_order_failure bot_key error now g in
      (g'.is_paused ≡ g.is_paused)
      × ((t : List ℕ)
          → same_codes (extract_symbol bot_key) t ≡ false
          → find t g'.paused_symbols ≡ find t g.paused_symbols)
      × ((k : List ℕ) → same_codes bot_key k ≡ false → count_of k g' ≡ count_of k g)
unfolding record_order_failure
failure_isolated bot_key error now g h some_symbol =
    let count = count_of bot_key g + 1 in
    let counted : Guard = record g { failure_counts = put bot_key count g.failure_counts } in
    let reason = failure_reason bot_key count error in
    let (paused, counts, others) =
      escalate_isolated (extract_symbol bot_key) bot_key error reason now counted h some_symbol in
    let other_counts : ((k : List ℕ)
        → same_codes bot_key k ≡ false
        → get_or (find k counted.failure_counts) 0 ≡ count_of k g) =
      λ k apart. ap (λ o. get_or o 0) (find-put_other bot_key k count g.failure_counts apart) in
    elim (Bool-cases (leb max_failure_streak count)) [
      | inr e ↦ simp (e) (refl, λ t apart. refl, other_counts)
      | inl e ↦
          simp (e)
            (paused, others, λ k apart. ap (λ d. get_or (find k d) 0) counts ∙ other_counts k apart)
    ]

escalate_pauses :
    (symbol bot_key error reason : List ℕ) (now : ℕ) (g : Guard)
    → g.is_paused ≡ false
    → ((escalate symbol bot_key error reason now g).is_paused ≡ true)
      ↔ ((is_recoverable error ≡ false) ⊎ (symbol ≡ []))
unfolding escalate pause_symbol pause_hub
escalate_pauses [] bot_key error reason now g h = ground arith
escalate_pauses (c ∷ cs) bot_key error reason now g h = ground arith

-- An unpaused hub is paused by a failure exactly if it is the third or a later one in a row of its
-- bot and either its error is not recoverable or the bot's key has no symbol.
pub failure_pauses_hub :
    (bot_key error : List ℕ) (now : ℕ) (g : Guard)
    → g.is_paused ≡ false
    → ((record_order_failure bot_key error now g).is_paused ≡ true) ↔ (
        (2 ≤ count_of bot_key g) × ((is_recoverable error ≡ false) ⊎ (extract_symbol bot_key ≡ [])))
unfolding record_order_failure
failure_pauses_hub bot_key error now g h =
    let count = count_of bot_key g + 1 in
    let counted : Guard = record g { failure_counts = put bot_key count g.failure_counts } in
    let paused =
      escalate_pauses (extract_symbol bot_key) bot_key error (failure_reason bot_key count error)
        now counted h in
    ground arith
