-- ===== src/ToxicSymbols.antt =====
-- The registry of runtime/core/toxic_symbols.py: the table of symbols that failed, and the set in
-- memory of those that are blacklisted. The set is the function that tells its members. Symbols are
-- lists of code points, and `upper()` is that of ASCII; the times and texts are arguments. `none` is an exception
-- of the database, before which neither the table nor the set has changed. The log lines and the
-- listings of the table are not modelled.
pub mod Calls
pub mod Agreement
mod Tests
use Prim.Native.String.{String}
use pecunator_accu_monetas.Prelude.{
  ℕ, ◌+◌, Bool, true, false, not, ◌&&◌, ◌||◌, Option, none, some, List, [], ◌∷◌, map, keep_if,
  if◌then◌else◌,
}
use pecunator_accu_monetas.Prelude.Codes.{same_codes, upper, find, put}

-- A row of `toxic_symbols`; its symbol is its key.
pub record Row : Type 0 where
  pub reason : String
  pub error_code : String
  pub blacklisted_at : ℕ
  pub hit_count : ℕ
  pub resolved : Bool
  pub resolved_at : Option ℕ
  pub notes : String

pub record Registry : Type 0 where
  pub table : List (List ℕ × Row)
  pub cache : List ℕ → Bool

-- `resolved = 0`, for the row of a symbol.
unfoldable pub is_active : Option Row → Bool
is_active none = false
is_active (some r) = not r.resolved

-- `symbol.upper()`
abbrev pub capitals : List ℕ → List ℕ
capitals symbol = map upper symbol

-- A row of the table that is not resolved has this symbol in capitals.
unfoldable pub is_listed : List ℕ → List (List ℕ × Row) → Bool
is_listed s [] = false
is_listed s ((symbol, r) ∷ rows) =
    (not r.resolved && same_codes (capitals symbol) s) || is_listed s rows

-- `_init_schema`, over the table that is there.
unfoldable pub init_schema : List (List ℕ × Row) → Registry
init_schema table = record { table = table; cache = λ s. is_listed s table }

-- `UPDATE … WHERE symbol = ? AND resolved = 0`
unfoldable pub update_active : List ℕ → (Row → Row) → List (List ℕ × Row) → List (List ℕ × Row)
update_active sym f [] = []
update_active sym f ((s, r) ∷ d) =
    let rest = update_active sym f d in
    if same_codes s sym && not r.resolved then (s, f r) ∷ rest else (s, r) ∷ rest

-- `blacklist`: whether the symbol was newly blacklisted.
unfoldable pub blacklist : List ℕ → String → String → ℕ → Bool → Registry → Registry × Option Bool
blacklist symbol reason error_code now db_ok g =
    let sym = capitals symbol in
    if not db_ok
    then (g, none)
    else if g.cache sym
    then (
      record g {
        table = update_active sym (λ r. record r { hit_count = r.hit_count + 1 }) g.table;
      },
      some false,
    )
    else (
      record {
        table =
            put sym
              (record {
                reason = reason;
                error_code = error_code;
                blacklisted_at = now;
                hit_count = 1;
                resolved = false;
                resolved_at = none;
                notes = "";
              })
              g.table;
        cache = λ s. same_codes sym s || g.cache s;
      },
      some true,
    )

-- `whitelist`: whether a row was changed.
unfoldable pub whitelist : List ℕ → String → ℕ → Bool → Registry → Registry × Option Bool
whitelist symbol notes now db_ok g =
    let sym = capitals symbol in
    if not db_ok then (g, none) else (
      record {
        table =
            update_active sym
              (λ r. record r { resolved = true; resolved_at = some now; notes = notes }) g.table;
        cache = λ s. not (same_codes sym s) && g.cache s;
      },
      some (is_active (find sym g.table)),
    )

-- `is_blacklisted`
unfoldable pub is_blacklisted : List ℕ → Registry → Bool
is_blacklisted symbol g = g.cache (capitals symbol)

-- `filter_symbols`
unfoldable pub filter_symbols : List (List ℕ) → Registry → List (List ℕ)
filter_symbols symbols g = keep_if (λ s. not (g.cache (capitals s))) symbols
