-- ===== src/ToxicSymbols/Calls.antt =====
-- Sequences of calls of the registry of runtime/core/toxic_symbols.py.
use Prim.Native.String.{String}
use pecunator_accu_monetas.Prelude.{ℕ, Bool, List, [], ◌∷◌}
use pecunator_accu_monetas.ToxicSymbols.{Registry, blacklist, whitelist}

-- A call, its time and whether the database works.
pub data Call : Type 0 where
  on_blacklist : List ℕ → String → String → ℕ → Bool → Call
  on_whitelist : List ℕ → String → ℕ → Bool → Call

abbrev pub apply : Call → Registry → Registry
apply (Call.on_blacklist sym reason error_code now db_ok) g =
    (blacklist sym reason error_code now db_ok g).0
apply (Call.on_whitelist sym notes now db_ok) g = (whitelist sym notes now db_ok g).0

abbrev pub apply_all : List Call → Registry → Registry
apply_all [] g = g
apply_all (c ∷ cs) g = apply_all cs (apply c g)
