-- ===== src/Symmetry/Clearance.antt =====
-- When `preflight` of runtime/core/symmetry_guard.py clears the hub.
use pecunator_accu_monetas.Prelude.{
  ℕ, ◌+◌, ◌*◌, ◌≤◌, ◌≡◌, ◌↔◌, true, false, Option, List, [], ◌∷◌, map, arith, Bool-cases, inl, inr,
}
use pecunator_accu_monetas.Prelude.Codes.{same_codes, upper}
use pecunator_accu_monetas.Symmetry.State.{Guard}
use pecunator_accu_monetas.Symmetry.Preflight.{
  BotConfig, Margin, exposure, symbol_blockers, spot_of, spot_failed, margin_of, is_not_enabled,
  margin_blockers, blockers_of, has_none, is_no_text, checked, preflight,
}

-- The conditions of a clearance, the amounts with their buffer of 10 %: a symbol that both bots
-- have, a spot wallet that was read and that is enough for Dorothy, an isolated margin that is
-- enabled, and wallets that together are enough for both.
abbrev pub IsClear : List ℕ → List ℕ → ℕ → ℕ → Option (List (List ℕ × ℕ)) → Margin → Type 0
IsClear d_sym e_sym d e account margin =
    (is_no_text d_sym ≡ false)
    × (same_codes d_sym e_sym ≡ true)
    × (spot_failed account ≡ false)
    × (d * 11 ≤ spot_of account * 10)
    × (is_not_enabled margin ≡ false)
    × ((d + e) * 11 ≤ (spot_of account + margin_of margin) * 10)

blockers_iff :
    (d_sym e_sym : List ℕ) (d e : ℕ) (account : Option (List (List ℕ × ℕ))) (margin : Margin)
    → (has_none (blockers_of d_sym e_sym d e account margin) ≡ true)
      ↔ IsClear d_sym e_sym d e account margin
unfolding blockers_of symbol_blockers margin_blockers same_codes
blockers_iff [] e_sym d e account margin = ground arith
blockers_iff (c ∷ cs) [] d e account margin = ground arith
blockers_iff (c ∷ cs) (x ∷ xs) d e account margin =
    elim (Bool-cases (same_codes (c ∷ cs) (x ∷ xs))) [
      | inr differ ↦ ground arith
      | inl same ↦ ground arith
    ]

-- A preflight clears the hub exactly if it is not paused and the symbols, the exposures and what the
-- client answers meet the conditions.
pub preflight_clears :
    (now : ℕ) (dorothy elphaba : BotConfig) (account : Option (List (List ℕ × ℕ))) (margin : Margin)
    (g : Guard)
    → ((preflight now dorothy elphaba account margin g).1.cleared ≡ true) ↔ (
        (g.is_paused ≡ false)
        × IsClear
            (map upper dorothy.symbol)
            (map upper elphaba.symbol)
            (exposure dorothy)
            (exposure elphaba)
            account
            margin)
unfolding preflight checked
preflight_clears now dorothy elphaba account margin g =
    let clear =
      blockers_iff (map upper dorothy.symbol) (map upper elphaba.symbol) (exposure dorothy)
        (exposure elphaba) account margin in
    ground arith
