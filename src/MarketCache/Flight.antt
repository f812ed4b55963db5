-- ===== src/MarketCache/Flight.antt =====
-- `scoped_key` and `get_or_fetch` of runtime/core/market_cache.py, whose awaits part it into three steps:
-- the check without a lock, the check under the lock of the key, and what follows the fetch. All
-- readings of the clock in one step are the same.
use pecunator_accu_monetas.Prelude.{
  ℕ, ◌+◌, Bool, false, not, ◌&&◌, ◌||◌, Option, none, some, List, [], ◌∷◌, ◌++◌, ◌==◌,
  if◌then◌else◌, get_or, keep_if, map,
}
use pecunator_accu_monetas.Prelude.Codes.{upper, same_codes, find, put}
use pecunator_accu_monetas.BudgetGuard.{codes}
use pecunator_accu_monetas.MarketCache.State.{Entry, Flight, Cache, is_expired, evict_if_needed}

-- `key.split(":")[0]`
unfoldable pub tier_of : List ℕ → List ℕ
tier_of [] = []
tier_of (c ∷ cs) = let rest = tier_of cs in if c == b':' then [] else c ∷ rest

abbrev pub is_private : List ℕ → Bool
is_private tier = same_codes tier (codes "account") || same_codes tier (codes "open_orders")

-- `scoped_key`, over the first eight digits of the hash of a credential; an empty one is none.
unfoldable pub scoped_key : (List ℕ → List ℕ) → List ℕ → List ℕ → List ℕ
scoped_key short_hash key [] = key
scoped_key short_hash key (a ∷ rest) =
    if is_private (tier_of key) then key ++ b'@' ∷ short_hash (a ∷ rest) else key

-- `_TIER_DEFAULTS`: the lifetime and the weight of a tier.
unfoldable pub tier_defaults : List ℕ → Option (ℕ × ℕ)
tier_defaults tier =
    if same_codes tier (codes "tickers")
    then some (3000, 2)
    else if same_codes tier (codes "account")
    then some (5000, 10)
    else if same_codes tier (codes "open_orders")
    then some (3000, 3)
    else if same_codes tier (codes "exchange_info")
    then some (3600000, 20)
    else if same_codes tier (codes "symbol_ticker")
    then some (2000, 1)
    else if same_codes tier (codes "server_time")
    then some (15000, 1)
    else if same_codes tier (codes "klines")
    then some (30000, 5)
    else none

unfoldable pub default_ttl : List ℕ → ℕ
default_ttl key = elim (tier_defaults (tier_of key)) [ none ↦ 10000 | some (ttl, weight) ↦ ttl ]

unfoldable pub default_weight : List ℕ → ℕ
default_weight key = elim (tier_defaults (tier_of key)) [ none ↦ 1 | some (ttl, weight) ↦ weight ]

-- `api_weight or default`: a weight of 0 counts as none.
unfoldable pub saved_weight : List ℕ → Option ℕ → ℕ
saved_weight key none = default_weight key
saved_weight key (some w) = let default = default_weight key in if w == 0 then default else w

-- `f"symbol_ticker:{symbol.replace('/', '').upper()}"`
unfoldable pub ticker_key : List ℕ → List ℕ
ticker_key symbol = codes "symbol_ticker:" ++ map upper (keep_if (λ c. not (c == b'/')) symbol)

-- What a step answers: data from the cache, just fetched, or outdated after a failed fetch; the fetch's
-- exception; or the caller waits for a lock or for its fetch.
pub data Result (A : Type 0) : Type 0 where
  hit fetched stale : A → Result A
  raised : Result A
  waits : ℕ → Result A
  fetching : Result A

unfoldable pub is_waiting : List ℕ → ℕ → List (List ℕ × ℕ) → Bool
is_waiting key lock [] = false
is_waiting key lock ((k, l) ∷ ws) = same_codes k key && l == lock || is_waiting key lock ws

unfoldable pub stop_waiting : List ℕ → ℕ → List (List ℕ × ℕ) → List (List ℕ × ℕ)
stop_waiting key lock [] = []
stop_waiting key lock ((k, l) ∷ ws) =
    let rest = stop_waiting key lock ws in
    if same_codes k key && l == lock then ws else (k, l) ∷ rest

module _ {A : Type 0} where
  -- The entry of a key, if it is there and not expired.
  unfoldable pub fresh : List ℕ → ℕ → Cache A → Option (Entry A)
  fresh key now c = elim (find key c.entries) [
    | none ↦ none
    | some e ↦ if is_expired now e then none else some e
  ]

  -- `_get_lock`
  unfoldable pub get_lock : List ℕ → Cache A → Cache A × ℕ
  get_lock key c = elim (find key c.locks) [
    | some lock ↦ (c, lock)
    | none ↦
        (record c { locks = put key c.next_lock c.locks; next_lock = c.next_lock + 1 }, c.next_lock)
  ]

  abbrev pub wait_for : List ℕ → Cache A × ℕ → Cache A × Result A
  wait_for key (c, lock) = (record c { waiting = (key, lock) ∷ c.waiting }, Result.waits lock)

  -- The first check.
  unfoldable pub request : List ℕ → Option ℕ → ℕ → Cache A → Cache A × Result A
  request key api_weight now c = elim (fresh key now c) [
    | some e ↦ (
      record c {
        stats = record (c.stats) {
          hits = c.stats.hits + 1;
          weight_saved = c.stats.weight_saved + saved_weight key api_weight;
        };
      },
      Result.hit e.data_of,
    )
    | none ↦ wait_for key (get_lock key c)
  ]

  -- Whether a fetch holds a lock.
  unfoldable pub is_held : ℕ → List (Flight A) → Bool
  is_held lock [] = false
  is_held lock (f ∷ fs) = f.lock == lock || is_held lock fs

  -- The check under the lock, by a caller that waits for it while nobody holds it.
  unfoldable pub enter : List ℕ → ℕ → ℕ → Cache A → Cache A × Result A
  enter key lock now c =
      let c' : Cache A = record c { waiting = stop_waiting key lock c.waiting } in
      elim (fresh key now c) [
        | some e ↦ (
          record c' { stats = record (c.stats) { hits = c.stats.hits + 1 } },
          Result.hit e.data_of,
        )
        | none ↦ (
          record c' {
            stats = record (c.stats) { misses = c.stats.misses + 1; fetches = c.stats.fetches + 1 };
            flights = record { key = key; lock = lock; stale = find key c.entries } ∷ c.flights;
          },
          Result.fetching,
        )
      ]

  unfoldable pub end_flight : ℕ → List (Flight A) → List (Flight A)
  end_flight lock [] = []
  end_flight lock (f ∷ fs) =
      let rest = end_flight lock fs in if f.lock == lock then fs else f ∷ rest

  -- The new entry, and the eviction.
  unfoldable pub store : List ℕ → Option ℕ → Option ℕ → A → ℕ → ℕ → Cache A → Cache A
  store key ttl api_weight data_of size now c =
      let e : Entry A = record {
        data_of = data_of;
        fetched_at = now;
        ttl = get_or ttl (default_ttl key);
        api_weight = get_or api_weight (default_weight key);
        size_bytes = size;
      } in
      evict_if_needed now (record c { entries = put key e c.entries })

  -- What follows the fetch, which gives data of some size or raises.
  unfoldable pub finish :
      Flight A → Option ℕ → Option ℕ → Option (A × ℕ) → ℕ → Cache A → Cache A × Result A
  finish f ttl api_weight (some (data_of, size)) now c = (
    store f.key ttl api_weight data_of size now
        (record c { flights = end_flight f.lock c.flights }),
    Result.fetched data_of,
  )
  finish f ttl api_weight none now c =
      let c' : Cache A = record c { flights = end_flight f.lock c.flights } in
      elim f.stale [ none ↦ (c', Result.raised) | some e ↦ (c', Result.stale e.data_of) ]

  -- `set_ticker`, for the ticker's value and size.
  unfoldable pub set_ticker : List ℕ → A → ℕ → ℕ → ℕ → Cache A → Cache A
  set_ticker symbol ticker size ttl now c =
      let e : Entry A = record {
        data_of = ticker;
        fetched_at = now;
        ttl = ttl;
        api_weight = 0;
        size_bytes = size;
      } in
      record c { entries = put (ticker_key symbol) e c.entries }
