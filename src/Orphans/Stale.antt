-- ===== src/Orphans/Stale.antt =====
-- `scan_louise_orphans` of runtime/core/orphan_guard.py, over the store of the Louise bots. The age
-- that a report states is left out; a database that fails gives no report.
use Prim.Native.String.{String}
use pecunator_accu_monetas.Prelude.{
  ℕ, ◌-◌, Bool, true, false, Option, none, some, List, [], ◌∷◌, ◌++◌, ltb, if◌then◌else◌,
}
use pecunator_accu_monetas.Louise.Store.{
  Bot, BotStatus, Epoch, EpochId, Purchase, Db, get_active_epoch, get_purchases_by_epoch,
}

pub data Missing : Type 0 where
  no_purchases_stale_epoch stale_running_epoch : Missing

pub record LouiseOrphan : Type 0 where
  pub bot_id : String
  pub symbol : String
  pub epoch_id : EpochId
  pub missing : Missing

abbrev pub is_working : BotStatus → Bool
is_working BotStatus.running = true
is_working BotStatus.accumulating = true
is_working _ = false

-- `purchases[-1]`
unfoldable pub last_purchase : List Purchase → Option Purchase
last_purchase [] = none
last_purchase (p ∷ ps) = elim (last_purchase ps) [ none ↦ some p | some q ↦ some q ]

-- An epoch whose last purchase, or else whose creation, is before the cutoff.
unfoldable pub check_epoch : ℕ → Bot → Epoch → Option Purchase → List LouiseOrphan
check_epoch cutoff bot e none =
    if ltb e.created_at cutoff
    then record {
      bot_id = bot.bot_id;
      symbol = bot.symbol;
      epoch_id = e.epoch_id;
      missing = Missing.no_purchases_stale_epoch;
    }
      ∷ []
    else []
check_epoch cutoff bot e (some p) =
    if ltb p.created_at cutoff
    then record {
      bot_id = bot.bot_id;
      symbol = bot.symbol;
      epoch_id = e.epoch_id;
      missing = Missing.stale_running_epoch;
    }
      ∷ []
    else []

-- The body of the loop over the bots.
unfoldable pub check_bot : ℕ → Db → Bot → List LouiseOrphan
check_bot cutoff db bot =
    if is_working bot.status
    then elim (get_active_epoch bot.bot_id db) [
      | none ↦ []
      | some e ↦ check_epoch cutoff bot e (last_purchase (get_purchases_by_epoch e.epoch_id db))
    ]
    else []

unfoldable pub check_bots : ℕ → Db → List Bot → List LouiseOrphan
check_bots cutoff db [] = []
check_bots cutoff db (b ∷ bs) = check_bot cutoff db b ++ check_bots cutoff db bs

-- `scan_louise_orphans`, for a number of seconds after which an epoch is stale.
unfoldable pub scan_louise_orphans : ℕ → ℕ → Db → List LouiseOrphan
scan_louise_orphans stale now db = check_bots (now - stale) db db.bots
