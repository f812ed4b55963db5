-- ===== src/MarketCache/Budget.antt =====
-- The caches that the calls of runtime/core/market_cache.py reach, and their memory.
use pecunator_accu_monetas.Prelude.{
  ℕ, ◌-◌, ◌≤◌, ◌≡◌, refl, ◌∙◌, true, false, Option, none, some, List, [], ◌∷◌, ◌++◌, arith, All,
}
use pecunator_accu_monetas.Prelude.Codes.{put, drop}
use pecunator_accu_monetas.MarketCache.State.{
  Entry, Flight, Cache, is_expired, total_size, init, invalidate, invalidate_prefix, clear,
  evict_if_needed, evict_oldest, evict_expired,
}
use pecunator_accu_monetas.MarketCache.Flight.{
  get_lock, request, is_held, is_waiting, enter, end_flight, store, finish, set_ticker, ticker_key,
}
use pecunator_accu_monetas.MarketCache.Keys.{IsKeyed, put-IsKeyed, drop-IsKeyed, keep_if-IsKeyed}
use pecunator_accu_monetas.MarketCache.Eviction.{evict_if_needed_within}

-- The caches that are reached from a new one, by steps of any callers in any order: a caller enters
-- under the lock it waits for while nobody holds it, and a fetch in progress ends.
pub data Reached (A : Type 0) (max_memory : ℕ) : Cache A → Type 0 where
  new : Reached A max_memory (init max_memory)
  requested :
      {c : Cache A} (key : List ℕ) (weight : Option ℕ) (now : ℕ)
      → Reached A max_memory c
      → Reached A max_memory (request key weight now c).0
  entered :
      {c : Cache A} (key : List ℕ) (lock now : ℕ)
      → is_waiting key lock c.waiting ≡ true
      → is_held lock c.flights ≡ false
      → Reached A max_memory c
      → Reached A max_memory (enter key lock now c).0
  finished :
      {c : Cache A} (fs gs : List (Flight A)) (f : Flight A) (ttl weight : Option ℕ)
      (answer : Option (A × ℕ)) (now : ℕ)
      → c.flights ≡ fs ++ f ∷ gs
      → Reached A max_memory c
      → Reached A max_memory (finish f ttl weight answer now c).0
  invalidated :
      {c : Cache A} (key : List ℕ)
      → Reached A max_memory c
      → Reached A max_memory (invalidate key c)
  invalidated_prefix :
      {c : Cache A} (prefix : List ℕ)
      → Reached A max_memory c
      → Reached A max_memory (invalidate_prefix prefix c)
  cleared : {c : Cache A} → Reached A max_memory c → Reached A max_memory (clear c)
  ticked :
      {c : Cache A} (symbol : List ℕ) (ticker : A) (size ttl now : ℕ)
      → Reached A max_memory c
      → Reached A max_memory (set_ticker symbol ticker size ttl now c)

module _ {A : Type 0} where
  -- What a step leaves of the entries and the budget.
  abbrev pub HasKeys : ℕ → Cache A → Type 0
  HasKeys max_memory c = IsKeyed c.entries × (c.max_memory ≡ max_memory)

  request_entries :
      (key : List ℕ) (weight : Option ℕ) (now : ℕ) (c : Cache A)
      → ((request key weight now c).0.entries ≡ c.entries)
        × ((request key weight now c).0.max_memory ≡ c.max_memory)
  unfolding request get_lock
  request_entries key weight now c = ground arith

  enter_entries :
      (key : List ℕ) (lock now : ℕ) (c : Cache A)
      → ((enter key lock now c).0.entries ≡ c.entries)
        × ((enter key lock now c).0.max_memory ≡ c.max_memory)
  unfolding enter
  enter_entries key lock now c = ground arith

  evict_oldest_memory :
      (es : List (List ℕ × Entry A)) (total : ℕ) (c : Cache A)
      → (evict_oldest es total c).max_memory ≡ c.max_memory
  unfolding evict_oldest
  evict_oldest_memory [] total c = refl
  evict_oldest_memory ((k, e) ∷ es) total c =
      let rest =
        evict_oldest_memory es (total - e.size_bytes)
          (record c { entries = drop k c.entries; locks = drop k c.locks }) in
      ground arith

  evict_if_needed_memory :
      (now : ℕ) (c : Cache A) → (evict_if_needed now c).max_memory ≡ c.max_memory
  unfolding evict_if_needed evict_expired
  evict_if_needed_memory now c = evict_oldest_memory _ _ (evict_expired now c)

  -- What a cache has after an eviction.
  abbrev pub IsTrimmed : ℕ → ℕ → Cache A → Type 0
  IsTrimmed max_memory now c =
      (total_size c.entries ≤ max_memory)
      × All (λ x. is_expired now x.1 ≡ false) c.entries
      × HasKeys max_memory c

  evicted_put :
      (max_memory : ℕ) (key : List ℕ) (e : Entry A) (now : ℕ) (c : Cache A)
      → HasKeys max_memory c
      → IsTrimmed max_memory now (evict_if_needed now (record c { entries = put key e c.entries }))
  evicted_put max_memory key e now c (keyed, size) =
      let c' : Cache A = record c { entries = put key e c.entries } in
      let (within, live, keyed') =
        evict_if_needed_within now c' (put-IsKeyed key e c.entries keyed) in
      let size' = evict_if_needed_memory now c' ∙ size in
      (omega (arith, within, size), live, (keyed', size'))

  finish-IsTrimmed :
      (max_memory : ℕ) (f : Flight A) (ttl weight : Option ℕ) (data_of : A) (size now : ℕ)
      (c : Cache A)
      → HasKeys max_memory c
      → IsTrimmed max_memory now (finish f ttl weight (some (data_of, size)) now c).0
  unfolding finish store
  finish-IsTrimmed max_memory f ttl weight data_of size now c has =
      evicted_put max_memory f.key _ now (record c { flights = end_flight f.lock c.flights }) has

  raised_entries :
      (f : Flight A) (ttl weight : Option ℕ) (now : ℕ) (c : Cache A)
      → ((finish f ttl weight none now c).0.entries ≡ c.entries)
        × ((finish f ttl weight none now c).0.max_memory ≡ c.max_memory)
  unfolding finish
  raised_entries f ttl weight now c = ground arith

  finish_keyed :
      (max_memory : ℕ) (f : Flight A) (ttl weight : Option ℕ) (answer : Option (A × ℕ)) (now : ℕ)
      (c : Cache A)
      → HasKeys max_memory c
      → HasKeys max_memory (finish f ttl weight answer now c).0
  finish_keyed max_memory f ttl weight (some (data_of, size)) now c has =
      let (within, live, has') = finish-IsTrimmed max_memory f ttl weight data_of size now c has in
      has'
  finish_keyed max_memory f ttl weight none now c (keyed, size) =
      let (same, same') = raised_entries f ttl weight now c in (rw (same) keyed, same' ∙ size)

  pub Reached-HasKeys :
      (max_memory : ℕ) (c : Cache A) → Reached A max_memory c → HasKeys max_memory c
  unfolding init invalidate invalidate_prefix clear set_ticker
  Reached-HasKeys max_memory _ Reached.new = (tt, refl)
  Reached-HasKeys max_memory _ (Reached.requested {c} key weight now r) =
      let (keyed, size) = Reached-HasKeys max_memory c r in
      let (same, same') = request_entries key weight now c in (rw (same) keyed, same' ∙ size)
  Reached-HasKeys max_memory _ (Reached.entered {c} key lock now waits free r) =
      let (keyed, size) = Reached-HasKeys max_memory c r in
      let (same, same') = enter_entries key lock now c in (rw (same) keyed, same' ∙ size)
  Reached-HasKeys max_memory _ (Reached.finished {c} fs gs f ttl weight answer now h r) =
      finish_keyed max_memory f ttl weight answer now c (Reached-HasKeys max_memory c r)
  Reached-HasKeys max_memory _ (Reached.invalidated {c} key r) =
      let (keyed, size) = Reached-HasKeys max_memory c r in (drop-IsKeyed key c.entries keyed, size)
  Reached-HasKeys max_memory _ (Reached.invalidated_prefix {c} prefix r) =
      let (keyed, size) = Reached-HasKeys max_memory c r in
      (keep_if-IsKeyed _ c.entries keyed, size)
  Reached-HasKeys max_memory _ (Reached.cleared {c} r) =
      let (keyed, size) = Reached-HasKeys max_memory c r in (tt, size)
  Reached-HasKeys max_memory _ (Reached.ticked {c} symbol ticker size_of ttl now r) =
      let (keyed, size) = Reached-HasKeys max_memory c r in
      (put-IsKeyed (ticker_key symbol) _ c.entries keyed, size)

  -- Whatever callers do with a cache, in whatever order their steps come: after a fetch that gives data,
  -- the entries together are within the memory of the cache, and none is expired.
  pub finish_within_memory :
      (max_memory : ℕ) (c : Cache A) (f : Flight A) (ttl weight : Option ℕ) (data_of : A)
      (size now : ℕ)
      → Reached A max_memory c
      → let c' = (finish f ttl weight (some (data_of, size)) now c).0 in
        (total_size c'.entries ≤ max_memory) × All (λ x. is_expired now x.1 ≡ false) c'.entries
  finish_within_memory max_memory c f ttl weight data_of size now r =
      let (within, live, has) =
        finish-IsTrimmed max_memory f ttl weight data_of size now c
          (Reached-HasKeys max_memory c r) in
      (within, live)
