-- ===== src/BudgetGuard.antt =====
-- The daily budget of runtime/core/budget_guard.py: the append-only ledger, the global ceiling and
-- the ceiling of each hub, `can_spend`, `record_spend` and `try_reserve`.
-- Amounts are whole numbers of a smallest unit of USDT, so that the sums that the source takes over
-- REAL columns are exact; a ratio is a number of hundredths, and a hub's ceiling is kept in
-- hundredths of the unit. Times are readings of `time.time()` in milliseconds and are arguments.
-- Bot ids are ASCII texts. The database calls of one operation are one step, as `BEGIN IMMEDIATE`
-- makes them for `try_reserve`; a database that fails is an argument. The status dict and the log
-- lines are not modelled.
pub mod Ceiling
pub mod Hubs
pub mod Branches
pub mod Other
mod Tests
use Prim.Native.Char.{code}
use Prim.Native.String.{String}
use pecunator_accu_monetas.Prelude.{
  ℕ, ◌+◌, ◌-◌, ◌*◌, Bool, true, false, not, ◌&&◌, Option, none, some, List, [], ◌∷◌, map, ltb, leb,
  ◌==◌, if◌then◌else◌, keep_if, sum_of,
}

-- "BUY" or any other text.
pub data Side : Type 0 where
  buy other_side : Side

pub data Hub : Type 0 where
  dorothy elphaba louise other : Hub

-- A row of `budget_ledger`; the bot's id is its code points.
pub record Row : Type 0 where
  pub at : ℕ
  pub bot_id : List ℕ
  pub side : Side
  pub amount : ℕ

-- The ratios are those of the dict `_hub_ratios`, and `other_ratio` is the default of its `get`.
pub record Guard : Type 0 where
  pub max_daily_spend : ℕ
  pub ratio : Hub → ℕ
  pub ledger : List Row

-- `_DEFAULT_HUB_RATIOS`, with the 0.05 that `_hub_ceiling` falls back to.
unfoldable pub default_ratio : Hub → ℕ
default_ratio Hub.dorothy = 30
default_ratio Hub.elphaba = 30
default_ratio Hub.louise = 40
default_ratio Hub.other = 5

abbrev pub codes : String → List ℕ
codes String.[] = []
codes (String.◌∷◌ c s) = code c ∷ codes s

-- `lower()`, on ASCII.
unfoldable pub lower : ℕ → ℕ
lower c = if leb b'A' c && leb c b'Z' then c + 32 else c

unfoldable pub is_prefix : List ℕ → List ℕ → Bool
is_prefix [] s = true
is_prefix (p ∷ ps) [] = false
is_prefix (p ∷ ps) (c ∷ s) = p == c && is_prefix ps s

unfoldable pub hub_name : Hub → List ℕ
hub_name Hub.dorothy = codes "dorothy"
hub_name Hub.elphaba = codes "elphaba"
hub_name Hub.louise = codes "louise"
hub_name Hub.other = codes "other"

-- `bot_id.lower().startswith(prefix)`; `bot_id LIKE 'prefix%'` is the same test, since LIKE does
-- not tell ASCII capitals from small letters.
unfoldable pub has_prefix : Hub → List ℕ → Bool
has_prefix hub bot_id = is_prefix (hub_name hub) (map lower bot_id)

-- `_hub_from_bot_id`
unfoldable pub hub_from_bot_id : List ℕ → Hub
hub_from_bot_id bot_id =
    if has_prefix Hub.dorothy bot_id
    then Hub.dorothy
    else if has_prefix Hub.elphaba bot_id
    then Hub.elphaba
    else if has_prefix Hub.louise bot_id
    then Hub.louise
    else Hub.other

-- `_hub_ceiling`, in hundredths of the unit.
unfoldable pub hub_ceiling : Hub → Guard → ℕ
hub_ceiling hub g = g.max_daily_spend * g.ratio hub

abbrev pub window : ℕ
window = 86400000

abbrev pub is_buy : Side → Bool
is_buy Side.buy = true
is_buy Side.other_side = false

-- `ts >= cutoff AND side = 'BUY'`, where the cutoff is `now - 86400`.
abbrev pub counts : ℕ → Row → Bool
counts now r = leb now (r.at + window) && is_buy r.side

-- `spent_last_24h`, and the same query in `try_reserve`.
unfoldable pub spent_last_24h : ℕ → List Row → ℕ
spent_last_24h now l = sum_of (λ r. r.amount) (keep_if (counts now) l)

-- `spent_last_24h_by_hub`, and the same query in `try_reserve`.
unfoldable pub spent_last_24h_by_hub : Hub → ℕ → List Row → ℕ
spent_last_24h_by_hub hub now l =
    sum_of (λ r. r.amount) (keep_if (λ r. counts now r && has_prefix hub r.bot_id) l)

unfoldable pub exceeds_global : ℕ → ℕ → Guard → Bool
exceeds_global amount now g = ltb g.max_daily_spend (spent_last_24h now g.ledger + amount)

unfoldable pub exceeds_hub : Hub → ℕ → ℕ → Guard → Bool
exceeds_hub hub amount now g =
    ltb (hub_ceiling hub g) ((spent_last_24h_by_hub hub now g.ledger + amount) * 100)

-- `can_spend`; an empty bot id skips the hub's check.
unfoldable pub can_spend : ℕ → List ℕ → ℕ → Guard → Bool
can_spend amount [] now g = not (exceeds_global amount now g)
can_spend amount (c ∷ cs) now g =
    if exceeds_global amount now g
    then false
    else not (exceeds_hub (hub_from_bot_id (c ∷ cs)) amount now g)

-- `record_spend`
unfoldable pub record_spend : List ℕ → Side → ℕ → ℕ → Guard → Guard
record_spend bot_id side amount now g = record g {
  ledger = record { at = now; bot_id = bot_id; side = side; amount = amount } ∷ g.ledger;
}

-- `try_reserve`: whether the spend was reserved, or `none` for an exception of the database, whose
-- transaction is rolled back.
unfoldable pub try_reserve : List ℕ → ℕ → ℕ → Bool → Guard → Guard × Option Bool
try_reserve bot_id amount now db_ok g =
    if not db_ok
    then (g, none)
    else if exceeds_global amount now g
    then (g, some false)
    else if exceeds_hub (hub_from_bot_id bot_id) amount now g
    then (g, some false)
    else (record_spend bot_id Side.buy amount now g, some true)
