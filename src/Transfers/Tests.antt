-- ===== src/Transfers/Tests.antt =====
-- The transfers of runtime/core/transfer_service.py to one account, under a governor that leaves one call.
use pecunator_accu_monetas.Prelude.{◌+◌, ◌≡◌, refl, true, false, some, [], ◌∷◌, length}
use pecunator_accu_monetas.Prelude.Frac.{of_ℕ}
use pecunator_accu_monetas.Prelude.Dict.{lookup, insert}
use pecunator_accu_monetas.Prelude.Codes.{upper, same_codes}
use pecunator_accu_monetas.BudgetGuard.{codes}
use pecunator_accu_monetas.ApiGovernor.{
  ServiceConfig, LimitType, effective_limit, request_token, record_usage, record_call,
  reset_daily_if_needed, token_for, check_service, check_quota, check_window, recent, window_wait,
  new,
}
use pecunator_accu_monetas.Transfers.Service.{
  Amount, Account, Reply, Result, World, Moment, exceeds, is_over_limit, is_allowed, fund_bot,
  transfer, after_reply,
}
use pecunator_accu_monetas.Transfers.Posts.{token_at, fund_again, raised_never_counted}

abbrev binance : ServiceConfig
binance = record {
  limit_type = LimitType.weight;
  limit_value = 2;
  window_seconds = 60;
  rate_limit = 0;
  budget_pct = 70;
  enabled = true;
}

abbrev bluechip : Account
bluechip = record { email = "b@x"; enabled = true; max_equity = some (of_ℕ 5000) }

abbrev world : World
world = record {
  registry = ("bluechip", bluechip) ∷ [];
  governor = new (("binance", binance) ∷ []) 1;
  posts = [];
  decisions = [];
}

abbrev noon : Moment
noon = record { today = 1; asked = 100; answered = 105; db_ok = true }

abbrev hundred : Amount
hundred = Amount.number (record { plus = 100; minus = 0; over = 1 })

-- The second transfer is denied once the first is recorded.
denied_run :
    (fund_bot "bluechip"
      (codes "usdt")
      hundred
      false
      Reply.ok
      noon
      (fund_bot "bluechip" (codes "usdt") hundred false Reply.ok noon world).0).1
    ≡ Result.denied
unfolding fund_bot transfer after_reply lookup insert is_over_limit exceeds same_codes upper
    request_token record_usage record_call reset_daily_if_needed token_for check_service check_quota
    check_window recent window_wait effective_limit new
denied_run = refl

registered : lookup "bluechip" world.registry ≡ some bluechip
unfolding lookup
registered = refl

within : is_over_limit bluechip (codes "usdt") hundred ≡ false
unfolding is_over_limit exceeds same_codes upper
within = refl

allowed : is_allowed (token_at noon world) ≡ true
unfolding request_token lookup insert reset_daily_if_needed token_for check_service check_quota
    check_window recent effective_limit new
allowed = refl

raised_never_counted_example :
    length (fund_again 5 "bluechip" (codes "usdt") hundred noon world).posts
    ≡ length world.posts + 5
raised_never_counted_example =
    raised_never_counted 5 "bluechip" (codes "usdt") hundred noon world bluechip registered refl
      within allowed
