-- ===== src/MarketCache/State.antt =====
-- The entries of `MarketCache` of runtime/core/market_cache.py, its eviction and its synchronous
-- operations on keys. The data is of any type; keys are lists of code points, clocks and lifetimes whole
-- milliseconds. The locks are numbered in the order of their creation. The accessors of tickers, the
-- summary and the log lines are not modelled.
use pecunator_accu_monetas.Prelude.{
  ℕ, ◌+◌, ◌-◌, Bool, not, Option, List, [], ◌∷◌, leb, if◌then◌else◌, keep_if, sum_of,
}
use pecunator_accu_monetas.Prelude.Codes.{drop}
use pecunator_accu_monetas.BudgetGuard.{is_prefix}

pub record Entry (A : Type 0) : Type 0 where
  pub data_of : A
  pub fetched_at : ℕ
  pub ttl : ℕ
  pub api_weight : ℕ
  pub size_bytes : ℕ

-- `expired`
unfoldable pub is_expired : {A : Type 0} → ℕ → Entry A → Bool
is_expired now e = leb (e.fetched_at + e.ttl) now

pub record Stats : Type 0 where
  pub hits : ℕ
  pub misses : ℕ
  pub fetches : ℕ
  pub weight_saved : ℕ

-- A fetch in progress: its key, the lock that it holds, and the entry it found when it began.
pub record Flight (A : Type 0) : Type 0 where
  pub key : List ℕ
  pub lock : ℕ
  pub stale : Option (Entry A)

-- `waiting` has the callers that have got the lock of a key and not yet acquired it; a lock is held
-- while a fetch is in progress under it.
pub record Cache (A : Type 0) : Type 0 where
  pub entries : List (List ℕ × Entry A)
  pub locks : List (List ℕ × ℕ)
  pub next_lock : ℕ
  pub max_memory : ℕ
  pub stats : Stats
  pub waiting : List (List ℕ × ℕ)
  pub flights : List (Flight A)

module _ {A : Type 0} where
  -- `__init__`
  unfoldable pub init : ℕ → Cache A
  init max_memory = record {
    entries = [];
    locks = [];
    next_lock = 0;
    max_memory = max_memory;
    stats = record { hits = 0; misses = 0; fetches = 0; weight_saved = 0 };
    waiting = [];
    flights = [];
  }

  -- `invalidate`
  unfoldable pub invalidate : List ℕ → Cache A → Cache A
  invalidate key c = record c { entries = drop key c.entries }

  -- `invalidate_prefix`
  unfoldable pub invalidate_prefix : List ℕ → Cache A → Cache A
  invalidate_prefix prefix c = record c {
    entries = keep_if (λ e. not (is_prefix prefix e.0)) c.entries;
  }

  -- `clear`
  unfoldable pub clear : Cache A → Cache A
  clear c = record c { entries = [] }

  -- `sum(e.size_bytes for e in self._entries.values())`
  abbrev pub total_size : List (List ℕ × Entry A) → ℕ
  total_size = sum_of (λ e. e.1.size_bytes)

  -- The locks of the keys of some entries are dropped.
  unfoldable pub drop_locks : List (List ℕ × Entry A) → List (List ℕ × ℕ) → List (List ℕ × ℕ)
  drop_locks [] locks = locks
  drop_locks ((k, e) ∷ es) locks = drop_locks es (drop k locks)

  -- The first phase of `_evict_if_needed`.
  unfoldable pub evict_expired : ℕ → Cache A → Cache A
  evict_expired now c = record c {
    entries = keep_if (λ e. not (is_expired now e.1)) c.entries;
    locks = drop_locks (keep_if (λ e. is_expired now e.1) c.entries) c.locks;
  }

  -- `sorted(..., key=lambda item: item[1].fetched_at)`
  unfoldable pub insert_by_age :
      List ℕ × Entry A → List (List ℕ × Entry A) → List (List ℕ × Entry A)
  insert_by_age x [] = x ∷ []
  insert_by_age x (y ∷ ys) =
      let rest = insert_by_age x ys in
      if leb x.1.fetched_at y.1.fetched_at then x ∷ y ∷ ys else y ∷ rest

  unfoldable pub sorted_by_age : List (List ℕ × Entry A) → List (List ℕ × Entry A)
  sorted_by_age [] = []
  sorted_by_age (x ∷ xs) = insert_by_age x (sorted_by_age xs)

  -- The loop of the second phase, over the entries from the oldest on, with the total so far.
  unfoldable pub evict_oldest : List (List ℕ × Entry A) → ℕ → Cache A → Cache A
  evict_oldest [] total c = c
  evict_oldest ((k, e) ∷ es) total c =
      let rest =
        evict_oldest es (total - e.size_bytes)
          (record c { entries = drop k c.entries; locks = drop k c.locks }) in
      if leb total c.max_memory then c else rest

  -- `_evict_if_needed`
  unfoldable pub evict_if_needed : ℕ → Cache A → Cache A
  evict_if_needed now c =
      let c' = evict_expired now c in
      evict_oldest (sorted_by_age c'.entries) (total_size c'.entries) c'
