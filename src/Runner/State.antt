-- ===== src/Runner/State.antt =====
-- The state of `BaseStrategyRunner` of runtime/bot/_base_runner.py that its loop reads and writes, and
-- what it shares with the other bots. Clocks and intervals are whole milliseconds. The events that are
-- emitted and the credentials are not modelled.
use Prim.Native.String.{String}
use pecunator_accu_monetas.Prelude.{ℕ, Bool, false, Option, none, List, [], get_or}
use pecunator_accu_monetas.Prelude.Dict.{Dict, lookup}
use pecunator_accu_monetas.Prelude.Frac.{Frac}
use pecunator_accu_monetas.Fuse.Api.{Fuses}
use pecunator_accu_monetas.WeightGovernor.{Governor}
use pecunator_accu_monetas.Coordinator.State.{Coordinator}

-- What the loop reads of the configuration and of `_bot_key`.
pub record Config : Type 0 where
  pub bot_key : String
  pub symbol : String
  pub loop_interval : ℕ

-- The attributes; a report is a dict of texts, and `client` tells whether there is a client.
pub record Runner : Type 0 where
  pub last_report : Dict String
  pub last_error : Option String
  pub last_cycle_ts : Option ℕ
  pub client : Bool
  pub error_streak : ℕ

-- `__init__`
unfoldable pub init : Runner
init = record {
  last_report = [];
  last_error = none;
  last_cycle_ts = none;
  client = false;
  error_streak = 0;
}

-- An entry of the hub state's log.
pub record Decision : Type 0 where
  pub bot_id : String
  pub symbol : String
  pub decision : String
  pub market_price : Option String
  pub equity_usdt : Option String
  pub drawdown_pct : Option String
  pub active_rungs : Option String

-- The objects that all bots use.
pub record Shared : Type 0 where
  pub fuses : Fuses
  pub governor : Governor
  pub coordinator : Coordinator
  pub decisions : List Decision

pub record World : Type 0 where
  pub runner : Runner
  pub shared : Shared

-- How `run_once` ends: with a report, with an error, whose text is the sanitized one, or cancelled.
pub data Reply : Type 0 where
  returned : Dict String → Reply
  raised : String → Reply
  cancelled : Reply

-- What one round of the loop meets, in the order in which it meets it: what the other tasks did since the
-- last round, the two flags, the readings of the fuse's clock, the random delay, what the other tasks do
-- in a wait and whether the bot is stopped in it, the bot's own cycle, whether
-- it leaves a client, and the clock after it.
pub record Turn : Type 0 where
  pub before : Shared → Shared
  pub stop_set : Bool
  pub panic_lock : Bool
  pub now : ℕ
  pub reset_now : ℕ
  pub remaining_now : ℕ
  pub desync : ℕ
  pub in_wait : Shared → Shared
  pub stop_in_wait : Bool
  pub run_once : Shared → Shared × Reply
  pub has_client : Bool
  pub done : ℕ

-- How a round ends: the loop is left, or it sleeps for so many seconds with its cycle omitted, run or failed.
pub data Outcome : Type 0 where
  stopped halted abandoned : Outcome
  omitted ran failed : Frac → Outcome

-- The entry of a report.
unfoldable pub decision_of : Config → Dict String → Decision
decision_of c rep = record {
  bot_id = c.bot_key;
  symbol = get_or (lookup "symbol" rep) c.symbol;
  decision = get_or (lookup "decision" rep) "UNKNOWN";
  market_price = lookup "market_price" rep;
  equity_usdt = lookup "equity_usdt" rep;
  drawdown_pct = lookup "drawdown_pct" rep;
  active_rungs = lookup "active_rungs" rep;
}
