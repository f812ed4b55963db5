-- ===== src/Lib.antt =====
-- Verification library of Pecunator AccuMonetas, the trading engine of this repository: the guards
-- that stand between a bot and the exchange, and the accumulation bot that goes through them.
--
-- How the parts interact. A Louise bot (runtime/bot/louise.py) polls its market. Each poll passes its
-- own checks (status, cooldown, price feed, balance), the API fuse, the governor, the exit condition
-- and the shared budget of the day, and then sends a market order under an order id of its own. The
-- exchange answers with an execution report, which the bot writes to its store
-- (runtime/core/louise_db.py). The fuses (runtime/core/api_fuse.py, order_fuse.py) block all calls for
-- a cooldown after an error code or a weight over a threshold. The governors
-- (runtime/core/api_governor.py, weight_governor.py) keep the calls of a service within its quota. The
-- budget guard (runtime/core/budget_guard.py) is a ledger of spends with a ceiling over 24 hours.
--
-- Which file models which part:
--   Fuse.antt              the breaker that both fuses share (Fuse/Breaker), the order fuse
--                          (Fuse/Order), the API fuse with its alerts (Fuse/Api) and the sequences of
--                          calls (Fuse/Calls); the other children hold proofs
--   ApiGovernor.antt       request_token and record_usage over the windows, the daily counters and
--                          the usage log; ApiGovernor/Protocol has callers that ask and then record,
--                          in any interleaving
--   WeightGovernor.antt    update_weight, request_permission, register_bot and unregister_bot
--   BudgetGuard.antt       the ledger, the ceilings, can_spend, record_spend and try_reserve
--   ExchangeFilters.antt   the filters of runtime/core/exchange_filters.py, their rounding, the
--                          validation of an order and the cache
--   Louise.antt            the tables of the store (Louise/Store), the state (Louise/State), the
--                          execution reports (Louise/Fills), the orders (Louise/Orders),
--                          poll_market in the order of its guards (Louise/Poll), and initialize,
--                          start, stop and the handlers of prices and balances (Louise/Start)
--   ToxicSymbols.antt      the blacklist of runtime/core/toxic_symbols.py, its table and its set
--   Coordinator.antt       the launches of runtime/core/bot_coordinator.py: its registry and the jitter
--                          (Coordinator/State), the choice of a delay (Coordinator/Delay) and a round
--                          of the launcher (Coordinator/Launcher)
--   Orphans.antt           runtime/core/orphan_guard.py: the scans of Spot and margin (Orphans/Scan),
--                          the recovery (Orphans/Recovery) and the scan of the Louise store
--                          (Orphans/Stale)
--   Symmetry.antt          runtime/core/symmetry_guard.py: its state (Symmetry/State), the failures
--                          and pauses (Symmetry/Pauses), the preflight (Symmetry/Preflight) and the
--                          allocation of capital (Symmetry/Capital)
--   Alerts.antt            runtime/core/alert_dispatcher.py: the history, the window of repeated alerts and
--                          the file (Alerts/Dispatcher), the attempts of a post (Alerts/Telegram)
--   MarketCache.antt       runtime/core/market_cache.py: the entries and their eviction
--                          (MarketCache/State), get_or_fetch in its steps (MarketCache/Flight) and the
--                          caches that they reach (MarketCache/Budget)
--   StateWal.antt          the snapshots of runtime/core/state_wal.py
--   Transfers.antt         the transfers of runtime/core/transfer_service.py over the API governor
--   Trend.antt             runtime/modules/trend_signal.py: the candles and the two gates (Trend/Candles)
--                          and the states of the symbols under their lock (Trend/Service)
--   Runner.antt            runtime/bot/_base_runner.py: its state (Runner/State), a round of its loop over
--                          the API fuse, the weight governor and the coordinator (Runner/Loop), and
--                          the equity with its drawdown and returns (Runner/Risk)
--   Backtest.antt          runtime/backtest/engine.py: the replay and its orders (Backtest/Engine) and the
--                          summary (Backtest/Summary)
--   Vault.antt             the candles of runtime/core/telemetry_vault.py (Vault/Klines) and the fetches of
--                          runtime/core/kline_ingestion.py that fill it (Vault/Ingestion)
--   Zoo.antt               runtime/core/exception_zoo.py: its table and the fingerprints it knows
--                          (Zoo/Registry)
--   Prelude.antt           shared names, lists, dictionaries, signed numbers and exact fractions
-- A method of a Python class is a function over the record of its attributes, under the name of the
-- method without its leading underscore. The Tests modules have concrete runs.
--
-- Units and bounds. A clock is a number that is passed in; the fuses, the API governor and the budget
-- guard read milliseconds, as does the loop of a runner, the bot and its store whole seconds. Shares are hundredths of a percent or
-- hundredths, as each file says. Python integers have no bound and are natural or signed numbers;
-- floats and Decimals are exact: whole numbers of a unit, or fractions whose rounding to 28 digits is
-- left out. The loop over a bot's cycles in the coordinator has fuel for each millisecond of its
-- minute, and each of its rounds takes at least one; the digits of a number have the number itself as
-- fuel. All other loops go through a list.
--
-- What is outside: the exchange, its client and the database engine are arguments, with the failures
-- that the code handles. Locks are not modelled: an operation is one step, and interleavings are
-- sequences of steps. Log lines, the texts of messages and the status dictionaries are left
-- out. What a runner's cycle and the other bots do to the shared objects is an argument of a round.
-- The other bots, the other tables of the telemetry, the HTTP layer, the command line and the desktop shell are not
-- modelled.
pub mod Alerts
pub mod ApiGovernor
pub mod Backtest
pub mod BudgetGuard
pub mod Coordinator
pub mod ExchangeFilters
pub mod Fuse
pub mod Louise
pub mod MarketCache
pub mod Orphans
pub mod Prelude
pub mod Runner
pub mod StateWal
pub mod Symmetry
pub mod ToxicSymbols
pub mod Transfers
pub mod Trend
pub mod Vault
pub mod WeightGovernor
pub mod Zoo
