-- ===== src/WeightGovernor/Registry.antt =====
-- The registry of bots of runtime/core/weight_governor.py.
use pecunator_accu_monetas.Prelude.{ℕ, ◌≡◌, false, none, ◌∙◌, refl}
use pecunator_accu_monetas.Prelude.Dict.{
  same, lookup, lookup-insert, lookup-erase_ne, lookup-erase_self, IsDistinct, insert-IsDistinct,
  erase-IsDistinct,
}
use pecunator_accu_monetas.WeightGovernor.{
  Governor, register_bot, unregister_bot, request_permission, pct, zone,
}
use Prim.Native.String.{String}

-- Registering a bot and unregistering it leaves the bot unknown, every other bot as it was, and the
-- permission that the governor gives as it was; no bot is ever listed twice.
pub register-unregister :
    (id other : String) (w l now : ℕ) (g : Governor)
    → IsDistinct g.bots
    → same id other ≡ false
    → let g' = unregister_bot id (register_bot id w l now g) in
      (lookup id g'.bots ≡ none)
      × (lookup other g'.bots ≡ lookup other g.bots)
      × (request_permission g' ≡ request_permission g)
      × IsDistinct g'.bots
unfolding register_bot unregister_bot request_permission pct zone
register-unregister id other w l now g d ne = (
  lookup-erase_self id _ (insert-IsDistinct id _ g.bots d),
  lookup-erase_ne id other _ ne ∙ rw (lookup-insert, ne) refl,
  refl,
  erase-IsDistinct id _ (insert-IsDistinct id _ g.bots d),
)
