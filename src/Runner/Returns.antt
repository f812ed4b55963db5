-- ===== src/Runner/Returns.antt =====
-- The returns that runtime/bot/_base_runner.py keeps, against all of them.
use pecunator_accu_monetas.Prelude.{
  ℕ, ◌≡◌, refl, ap, ◌∙◌, Bool-cases, inl, inr, Option, none, some, List, [], ◌∷◌, ◌++◌, ltb,
  if◌then◌else◌, arith,
}
use pecunator_accu_monetas.Prelude.Frac.{Signed}
use pecunator_accu_monetas.Prelude.Slices.{last_n, skip, last_n-append_one, last_n-short}
use pecunator_accu_monetas.Runner.Risk.{Risk, init, return_of, record_positive, record_return}

-- Calls of `_record_return`, the newest first.
abbrev pub run : List (Option ℕ × ℕ) → Risk
run [] = init
run ((prev, equity) ∷ calls) = record_return prev equity (run calls)

-- All their returns, the oldest first; a call after no positive equity has none.
abbrev pub all_returns : List (Option ℕ × ℕ) → List Signed
all_returns [] = []
all_returns ((none, equity) ∷ calls) = all_returns calls
all_returns ((some prev, equity) ∷ calls) =
    let rest = all_returns calls in if ltb 0 prev then rest ++ return_of prev equity ∷ [] else rest

record_positive_returns :
    (prev equity : ℕ) (r : Risk)
    → (record_positive prev equity r).equity_returns
      ≡ last_n 500 (r.equity_returns ++ return_of prev equity ∷ [])
unfolding record_positive
record_positive_returns prev equity r =
    let short = last_n-short 500 (r.equity_returns ++ return_of prev equity ∷ []) in ground arith

-- Whatever returns were recorded since the start, the newest 500 of them are kept, in their order.
pub returns_are_newest :
    (calls : List (Option ℕ × ℕ)) → (run calls).equity_returns ≡ last_n 500 (all_returns calls)
unfolding init record_return last_n skip
returns_are_newest [] = refl
returns_are_newest ((none, equity) ∷ calls) = returns_are_newest calls
returns_are_newest ((some prev, equity) ∷ calls) =
    let before = returns_are_newest calls in
    let one = return_of prev equity in
    elim (Bool-cases (ltb 0 prev)) [
      | inl positive ↦ simp (positive) (
          record_positive_returns prev equity (run calls)
          ∙ ap (λ xs. last_n 500 (xs ++ one ∷ [])) before
          ∙ last_n-append_one 500 (all_returns calls) one (omega arith))
      | inr zero_before ↦ simp (zero_before) before
    ]
