-- ===== src/Orphans/Valid.antt =====
-- The orders that `recover_dorothy_orphan` of runtime/core/orphan_guard.py sends.
use pecunator_accu_monetas.Prelude.{
  ℕ, ◌≡◌, refl, ◌⊎◌, inl, inr, true, none, some, List, ◌∷◌, arith, ap, sym, ◌∙◌, leb, Bool-cases,
  Option-cases,
}
use pecunator_accu_monetas.Prelude.Frac.{Frac, is_pos}
use pecunator_accu_monetas.ExchangeFilters.{SymbolFilters, Verdict, validate_order}
use pecunator_accu_monetas.Orphans.Recovery.{
  Config, Answers, Filters, SellOrder, Guard, wanted, count_of, max_retry_attempts, is_valid, fit,
  fit_any, send, place, estimate, recover_dorothy_orphan,
}

is_valid_iff : (v : Verdict) → is_valid v ≡ true → v ≡ Verdict.valid
is_valid_iff Verdict.valid h = refl
is_valid_iff Verdict.qty_low h = cc
is_valid_iff Verdict.qty_high h = cc
is_valid_iff Verdict.price_low h = cc
is_valid_iff Verdict.price_high h = cc
is_valid_iff Verdict.notional_low h = cc

fit-valid :
    (f : SymbolFilters) (o o' : SellOrder)
    → fit f o ≡ some o'
    → validate_order f o'.qty o'.price ≡ Verdict.valid
unfolding fit
fit-valid f o o' h = is_valid_iff _ (ground arith)

-- At most one order was sent, and it fits the filters and has a positive quantity.
abbrev pub SentValid : SymbolFilters → Guard → Guard → Type 0
SentValid f g g' =
    (g'.sent ≡ g.sent)
    ⊎ ((o : SellOrder) × (g'.sent ≡ o ∷ g.sent)
        × (validate_order f o.qty o.price ≡ Verdict.valid)
        × (is_pos o.qty ≡ true))

-- What was tested last: the order that fits, or none.
placed :
    (symbol : List ℕ) (free : Frac) (config : Config) (a : Answers) (attempts : ℕ) (price : Frac)
    (g : Guard) (o : SellOrder)
    → fit_any a.filters (wanted free config price) ≡ some o
    → let g' = (place symbol free config a attempts price g).0 in
      (g'.sent ≡ g.sent) ⊎ ((g'.sent ≡ o ∷ g.sent) × (is_pos o.qty ≡ true))
unfolding place send
placed symbol free config a attempts price g o h = ground arith

not_placed :
    (symbol : List ℕ) (free : Frac) (config : Config) (a : Answers) (attempts : ℕ) (price : Frac)
    (g : Guard)
    → fit_any a.filters (wanted free config price) ≡ none
    → (place symbol free config a attempts price g).0.sent ≡ g.sent
unfolding place
not_placed symbol free config a attempts price g h = ground arith

place-SentValid :
    (symbol : List ℕ) (free : Frac) (config : Config) (a : Answers) (attempts : ℕ) (price : Frac)
    (g : Guard) (f : SymbolFilters)
    → a.filters ≡ Filters.found f none
    → SentValid f g (place symbol free config a attempts price g).0
unfolding fit_any
place-SentValid symbol free config a attempts price g f h =
    let o = wanted free config price in
    elim (Option-cases (fit_any a.filters o)) [
      | inl e ↦ inl (not_placed symbol free config a attempts price g e)
      | inr (o', e) ↦
          let valid = fit-valid f o o' (ap (λ x. fit_any x o) (sym h) ∙ e) in
          elim (placed symbol free config a attempts price g o' e) [
            | inl kept ↦ inl kept
            | inr (sent, pos) ↦ inr (o', sent, valid, pos)
          ]
    ]

-- With filters of the symbol whose check does not raise, a recovery sends at most one order, and that
-- order passes the validation by the filters and has a positive quantity, also where its quantity
-- was adjusted.
pub recovery_sends_valid :
    (symbol : List ℕ) (free : Frac) (config : Config) (a : Answers) (g : Guard) (f : SymbolFilters)
    → a.filters ≡ Filters.found f none
    → SentValid f g (recover_dorothy_orphan symbol free config a g).0
unfolding recover_dorothy_orphan
recovery_sends_valid symbol free config a g f h =
    let attempts = count_of symbol g.retry_counts in
    elim (Bool-cases (leb max_retry_attempts attempts)) [
      | inl e ↦ rw (e) (inl refl)
      | inr e ↦ elim (Option-cases (estimate a)) [
        | inl n ↦ rw (e, n) (inl refl)
        | inr (price, n) ↦ rw (e, n) (place-SentValid symbol free config a attempts price g f h)
      ]
    ]
