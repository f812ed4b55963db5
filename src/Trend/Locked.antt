-- ===== src/Trend/Locked.antt =====
-- The lock of runtime/modules/trend_signal.py, which `get_all_symbols` takes twice.
use Prim.Native.String.{String}
use pecunator_accu_monetas.Prelude.{
  ℕ, ◌≡◌, ◌≢◌, ◌↔◌, ◌⊎◌, inl, inr, refl, true, false, none, some, List, [], ◌∷◌, arith,
}
use pecunator_accu_monetas.Prelude.Dict.{Dict}
use pecunator_accu_monetas.Trend.Service.{
  Service, SymbolState, with_lock, get_full_state, full_states, get_all_symbols,
}

List-cases {ℓ} : {A : Type ℓ} (xs : List A) → (xs ≡ []) ⊎ ((x : A) × (ys : List A) × (xs ≡ x ∷ ys))
List-cases [] = inl refl
List-cases (x ∷ xs) = inr (x, xs, refl)

full_states_wait :
    (e : String × SymbolState) (es : Dict SymbolState) (now : ℕ) (s : Service)
    → s.locked ≡ true
    → full_states (e ∷ es) now s ≡ none
unfolding full_states get_full_state with_lock
full_states_wait (symbol, state) es now s held = rw (held) refl

with_symbol_waits :
    (e : String × SymbolState) (es : Dict SymbolState) (now : ℕ) (s : Service)
    → s.states ≡ e ∷ es
    → get_all_symbols now s ≡ none
unfolding get_all_symbols
with_symbol_waits e es now s h =
    let waits = full_states_wait e es now (record s { locked = true }) refl in ground arith

without_symbol_returns :
    (now : ℕ) (s : Service)
    → s.locked ≡ false
    → s.states ≡ []
    → get_all_symbols now s ≡ some (s, [])
unfolding get_all_symbols full_states
without_symbol_returns now s free h = ground arith

-- On a service whose lock is free, `get_all_symbols` never returns if any symbol is tracked, since it asks
-- for the state of the symbol under the lock that it holds; with no symbol it returns an empty answer and
-- frees the lock.
pub get_all_symbols_waits :
    (now : ℕ) (s : Service)
    → s.locked ≡ false
    → ((get_all_symbols now s ≡ none) ↔ (s.states ≢ []))
      × (s.states ≡ [] → get_all_symbols now s ≡ some (s, []))
get_all_symbols_waits now s free =
    let returns = without_symbol_returns now s free in
    (
      (
        λ h empty. ground (arith, returns empty, h),
        λ some_symbol. elim (List-cases s.states) [
          | inl empty ↦ absurd (some_symbol empty)
          | inr (e, es, h) ↦ with_symbol_waits e es now s h
        ],
      ),
      returns,
    )
