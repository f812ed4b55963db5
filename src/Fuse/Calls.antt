-- ===== src/Fuse/Calls.antt =====
-- The public methods of runtime/core/api_fuse.py as one data type of calls, for statements about
-- any sequence of them.
use pecunator_accu_monetas.Prelude.{ℕ, List, [], ◌∷◌}
use pecunator_accu_monetas.Prelude.Int.{ℤ}
use pecunator_accu_monetas.Fuse.Api
use pecunator_accu_monetas.Fuse.Api.{Fuses}

-- A call of a public method, with its clock readings.
pub data Call : Type 0 where
  check_weight : ℤ → ℕ → ℕ → Call
  on_error_code : ℤ → ℕ → ℕ → Call
  is_tripped : ℕ → ℕ → Call
  manual_reset : ℕ → Call

unfoldable pub apply : Call → Fuses → Fuses
apply (Call.check_weight used now now') s = (Api.check_weight used now now' s).0
apply (Call.on_error_code code now now') s = (Api.on_error_code code now now' s).0
apply (Call.is_tripped now now') s = (Api.is_tripped now now' s).0
apply (Call.manual_reset now) s = Api.manual_reset now s

unfoldable pub apply_all : List Call → Fuses → Fuses
apply_all [] s = s
apply_all (c ∷ cs) s = apply_all cs (apply c s)
