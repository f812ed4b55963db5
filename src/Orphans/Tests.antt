-- ===== src/Orphans/Tests.antt =====
-- The guard of runtime/core/orphan_guard.py on a holding of 0.5 BTC and on a stuck epoch.
use pecunator_accu_monetas.Prelude.{
  ℕ, ◌-◌, ◌≡◌, refl, ap, true, false, none, some, List, [], ◌∷◌, All,
}
use pecunator_accu_monetas.Prelude.Frac.{Frac, of_ℕ}
use pecunator_accu_monetas.Prelude.Codes.{same_codes, upper, find}
use pecunator_accu_monetas.BudgetGuard.{codes, is_prefix}
use pecunator_accu_monetas.ExchangeFilters.{default_filters, floor_to}
use pecunator_accu_monetas.Louise.Store.{Bot, Db}
use pecunator_accu_monetas.Louise.Fixtures.{config, bought_epoch}
use pecunator_accu_monetas.Orphans.Scan.{
  Orphan, Side, scan_dorothy_orphans, free_of, remove_usdt, tagged,
}
use pecunator_accu_monetas.Orphans.Recovery.{
  Config, Answers, Filters, Stage, Guard, Action, init, recover_dorothy_orphan, count_of, estimate,
  last_buy, place, wanted, quantize, fit_any, fit_until, send,
}
use pecunator_accu_monetas.Orphans.Stale.{scan_louise_orphans}
use pecunator_accu_monetas.Orphans.Valid.{SentValid, recovery_sends_valid}
use pecunator_accu_monetas.Orphans.Retries.{is_recovered, Failing}
use pecunator_accu_monetas.Orphans.Detection.{IsReportOf, Member, scan_louise_orphans_sound}

abbrev btc : List ℕ
btc = codes "BTCUSDT"

abbrev half : Frac
half = record { num = 1; den = 2 }

abbrev bot : Config
bot = record {
  quote_order_qty = of_ℕ 10;
  profit_factor = record { num = 2; den = 100 };
  price_decimals = 2;
  qty_decimals = 3;
}

-- The only order is a sale under another tag.
scan_run :
    scan_dorothy_orphans btc
      (codes "d-")
      (of_ℕ 10)
      (some (record { side = Side.sell; is_limit = true; client_order_id = codes "x-1" } ∷ []))
      (some (record { asset = codes "btc"; free = half } ∷ []))
    ≡ Orphan.dorothy_orphan btc half ∷ []
unfolding scan_dorothy_orphans free_of remove_usdt same_codes tagged upper is_prefix
scan_run = refl

-- A client that knows the price and refuses the order.
abbrev refusing : Answers
refusing = record {
  my_trades = some [];
  ticker = some (of_ℕ 100);
  filters = Filters.no_filters;
  accepts = false;
}

abbrev filtered : Answers
filtered = record refusing { filters = Filters.found default_filters none }

recovery_sends_valid_example :
    SentValid default_filters init (recover_dorothy_orphan btc half bot filtered init).0
recovery_sends_valid_example = recovery_sends_valid btc half bot filtered init default_filters refl

-- Filters that raise at once.
abbrev raising : Answers
raising = record refusing {
  filters = Filters.found default_filters (some Stage.at_price);
  accepts = true;
}

-- The order is sent as it was wanted: nothing tells that the filters were not asked.
unvalidated_run :
    (recover_dorothy_orphan btc half bot raising init).1
    ≡ Action.recovered (wanted half bot (of_ℕ 100))
unfolding recover_dorothy_orphan init count_of estimate last_buy place wanted quantize fit_any
    fit_until send floor_to find
unvalidated_run = refl

abbrev once : Guard
once = (recover_dorothy_orphan btc half bot refusing init).0

failed_once : (recover_dorothy_orphan btc half bot refusing init).1 ≡ Action.failed 1
unfolding recover_dorothy_orphan init count_of estimate last_buy place wanted quantize fit_any send
    floor_to find
failed_once = refl

failing_run : Failing btc init once
failing_run = Failing.again half bot refusing Failing.start (ap is_recovered failed_once)

abbrev stuck : Db
stuck = record { bots = config ∷ []; epochs = bought_epoch ∷ []; purchases = []; snapshots = [] }

scan_louise_orphans_sound_example :
    All
      (λ o. (b : Bot) × Member b stuck.bots × IsReportOf (100000 - 86400) stuck b o)
      (scan_louise_orphans 86400 100000 stuck)
scan_louise_orphans_sound_example = scan_louise_orphans_sound 86400 100000 stuck
