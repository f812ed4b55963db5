-- ===== src/ToxicSymbols/Tests.antt =====
-- The registry of runtime/core/toxic_symbols.py on three symbols.
use pecunator_accu_monetas.Prelude.{◌≡◌, refl, true, false, none, List, [], ◌∷◌}
use pecunator_accu_monetas.Prelude.Codes.{same_codes, upper, find, put}
use pecunator_accu_monetas.BudgetGuard.{codes}
use pecunator_accu_monetas.ToxicSymbols.{
  Row, init_schema, blacklist, whitelist, is_blacklisted, filter_symbols, is_active, is_listed,
  update_active,
}
use pecunator_accu_monetas.ToxicSymbols.Calls.{Call, apply_all}
use pecunator_accu_monetas.ToxicSymbols.Agreement.{restart_keeps_blacklist}

-- The second call fails, and the last one takes the first symbol off the list.
abbrev calls : List Call
calls =
    Call.on_blacklist (codes "btcusdt") "borrow" "-3045" 1 true
    ∷ Call.on_blacklist (codes "ETHUSDT") "borrow" "-3045" 2 false
    ∷ Call.on_blacklist (codes "BNBUSDT") "borrow" "-3045" 3 true
    ∷ Call.on_whitelist (codes "BTCUSDT") "liquid again" 4 true
    ∷ []

abbrev listed : Row
listed = record {
  reason = "borrow";
  error_code = "-3045";
  blacklisted_at = 1;
  hit_count = 2;
  resolved = false;
  resolved_at = none;
  notes = "";
}

calls_run :
    filter_symbols
      (codes "BTCUSDT" ∷ codes "ETHUSDT" ∷ codes "bnbusdt" ∷ [])
      (apply_all calls (init_schema []))
    ≡ codes "BTCUSDT" ∷ codes "ETHUSDT" ∷ []
unfolding filter_symbols init_schema blacklist whitelist is_active is_listed same_codes upper find
    put update_active
calls_run = refl

-- A row in small letters is listed on opening, is not whitelisted, and is listed again on reopening.
small_row :
    let g = init_schema ((codes "btcusdt", listed) ∷ []) in
    let g' = (whitelist (codes "btcusdt") "liquid again" 4 true g).0 in
    (is_blacklisted (codes "btcusdt") g ≡ true)
    × (is_blacklisted (codes "btcusdt") g' ≡ false)
    × (is_blacklisted (codes "btcusdt") (init_schema g'.table) ≡ true)
unfolding is_blacklisted init_schema whitelist is_active is_listed same_codes upper find
    update_active
small_row = (refl, refl, refl)

restart_keeps_blacklist_example :
    let g = apply_all calls (init_schema ((codes "SOLUSDT", listed) ∷ [])) in
    is_blacklisted (codes "bnbusdt") g ≡ is_blacklisted (codes "bnbusdt") (init_schema g.table)
unfolding upper
restart_keeps_blacklist_example =
    restart_keeps_blacklist ((codes "SOLUSDT", listed) ∷ []) calls (codes "bnbusdt") (refl, tt)
