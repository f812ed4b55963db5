-- ===== src/ToxicSymbols/Agreement.antt =====
-- The set in memory and the table of runtime/core/toxic_symbols.py tell the same symbols.
use Prim.Native.String.{String}
use pecunator_accu_monetas.Prelude.{
  ℕ, ◌+◌, ◌≡◌, refl, Bool, true, false, not, ◌&&◌, ◌||◌, none, some, List, [], ◌∷◌, arith, All,
}
use pecunator_accu_monetas.Prelude.Codes.{same_codes, same_codes_eq, same_codes_refl, upper, put}
use pecunator_accu_monetas.ToxicSymbols.{
  Row, Registry, capitals, is_listed, init_schema, update_active, blacklist, whitelist,
  is_blacklisted,
}
use pecunator_accu_monetas.ToxicSymbols.Calls.{Call, apply_all}

upper_twice : (c : ℕ) → upper (upper c) ≡ upper c
unfolding upper
upper_twice c = ground arith

-- `upper()` leaves capitals as they are.
pub capitals_twice : (s : List ℕ) → capitals (capitals s) ≡ capitals s
capitals_twice [] = refl
capitals_twice (c ∷ cs) = rw (upper_twice c, capitals_twice cs) refl

-- The symbols of the table are in capitals.
abbrev pub InCapitals : List (List ℕ × Row) → Type 0
InCapitals table = All (λ row. capitals row.0 ≡ row.0) table

is_listed-put :
    (k s : List ℕ) (r : Row) (table : List (List ℕ × Row))
    → capitals k ≡ k
    → r.resolved ≡ false
    → is_listed s (put k r table) ≡ (same_codes k s || is_listed s table)
unfolding is_listed put
is_listed-put k s r [] caps active = ground arith
is_listed-put k s r ((j, q) ∷ table) caps active =
    let rest = is_listed-put k s r table caps active in ground (arith, same_codes_eq j k)

put-InCapitals :
    (k : List ℕ) (r : Row) (table : List (List ℕ × Row))
    → capitals k ≡ k
    → InCapitals table
    → InCapitals (put k r table)
unfolding put
put-InCapitals k r [] caps h = (caps, tt)
put-InCapitals k r ((j, q) ∷ table) caps (first, rest) =
    ground (arith, put-InCapitals k r table caps rest)

module _ (k : List ℕ) (f : Row → Row) where
  update_active-InCapitals :
      (table : List (List ℕ × Row)) → InCapitals table → InCapitals (update_active k f table)
  unfolding update_active
  update_active-InCapitals [] h = tt
  update_active-InCapitals ((j, q) ∷ table) (first, rest) =
      ground (arith, update_active-InCapitals table rest)

  -- An update that resolves nothing.
  is_listed-update_active :
      (s : List ℕ) (table : List (List ℕ × Row))
      → ((r : Row) → (f r).resolved ≡ r.resolved)
      → is_listed s (update_active k f table) ≡ is_listed s table
  unfolding is_listed update_active
  is_listed-update_active s [] keeps = refl
  is_listed-update_active s ((j, q) ∷ table) keeps =
      let kept = keeps q in ground (arith, is_listed-update_active s table keeps)

  -- An update that resolves its rows.
  is_listed-resolved :
      (s : List ℕ) (table : List (List ℕ × Row))
      → capitals k ≡ k
      → ((r : Row) → (f r).resolved ≡ true)
      → InCapitals table
      → is_listed s (update_active k f table) ≡ (not (same_codes k s) && is_listed s table)
  unfolding is_listed update_active
  is_listed-resolved s [] caps resolves h = ground arith
  is_listed-resolved s ((j, q) ∷ table) caps resolves (first, rest) =
      let resolved = resolves q in
      let others = is_listed-resolved s table caps resolves rest in
      ground (arith, same_codes_eq j k, same_codes_eq k s, same_codes_eq j s, same_codes_refl s)

-- The set has exactly the symbols whose row is active, and all symbols are in capitals.
abbrev pub Agrees : Registry → Type 0
Agrees g = ((s : List ℕ) → g.cache s ≡ is_listed s g.table) × InCapitals g.table

blacklist-Agrees :
    (symbol : List ℕ) (reason error_code : String) (now : ℕ) (db_ok : Bool) (g : Registry)
    → Agrees g
    → Agrees (blacklist symbol reason error_code now db_ok g).0
unfolding blacklist
blacklist-Agrees symbol reason error_code now db_ok g (h, caps) =
    let k = capitals symbol in
    let twice = capitals_twice symbol in
    let hit : Row → Row = λ r. record r { hit_count = r.hit_count + 1 } in
    let new : Row = record {
      reason = reason;
      error_code = error_code;
      blacklisted_at = now;
      hit_count = 1;
      resolved = false;
      resolved_at = none;
      notes = "";
    } in
    (
      λ s.
          let held = h s in
          let counted = is_listed-update_active k hit s g.table (λ r. refl) in
          let added = is_listed-put k s new g.table twice refl in ground arith,
      let counted = update_active-InCapitals k hit g.table caps in
          let added = put-InCapitals k new g.table twice caps in ground arith,
    )

whitelist-Agrees :
    (symbol : List ℕ) (notes : String) (now : ℕ) (db_ok : Bool) (g : Registry)
    → Agrees g
    → Agrees (whitelist symbol notes now db_ok g).0
unfolding whitelist
whitelist-Agrees symbol notes now db_ok g (h, caps) =
    let k = capitals symbol in
    let off : Row → Row =
      λ r. record r { resolved = true; resolved_at = some now; notes = notes } in
    (
      λ s.
          let held = h s in
          let gone = is_listed-resolved k off s g.table (capitals_twice symbol) (λ r. refl) caps in
          ground arith,
      let kept = update_active-InCapitals k off g.table caps in ground arith,
    )

apply_all-Agrees : (cs : List Call) (g : Registry) → Agrees g → Agrees (apply_all cs g)
apply_all-Agrees [] g h = h
apply_all-Agrees (Call.on_blacklist symbol reason error_code now db_ok ∷ cs) g h =
    apply_all-Agrees cs _ (blacklist-Agrees symbol reason error_code now db_ok g h)
apply_all-Agrees (Call.on_whitelist symbol notes now db_ok ∷ cs) g h =
    apply_all-Agrees cs _ (whitelist-Agrees symbol notes now db_ok g h)

-- A registry that was opened on a table whose symbols are in capitals and called in any way, whichever
-- of the calls the database fails, answers for each symbol, in whatever letters, as one that is
-- opened anew on the table that it left.
pub restart_keeps_blacklist :
    (table : List (List ℕ × Row)) (cs : List Call) (symbol : List ℕ)
    → InCapitals table
    → let g = apply_all cs (init_schema table) in
      is_blacklisted symbol g ≡ is_blacklisted symbol (init_schema g.table)
unfolding is_blacklisted init_schema
restart_keeps_blacklist table cs symbol caps =
    (apply_all-Agrees cs (init_schema table) (λ s. refl, caps)).0 (capitals symbol)
