-- ===== src/MarketCache/Locks.antt =====
-- The locks of runtime/core/market_cache.py: what they exclude, and what an eviction takes away.
use pecunator_accu_monetas.Prelude.{
  ℕ, ◌-◌, ◌≡◌, refl, false, Option, none, some, List, [], ◌∷◌, arith,
}
use pecunator_accu_monetas.Prelude.Codes.{drop}
use pecunator_accu_monetas.MarketCache.State.{
  Entry, Flight, Cache, init, invalidate, invalidate_prefix, clear, evict_if_needed, evict_oldest,
  evict_expired,
}
use pecunator_accu_monetas.MarketCache.Flight.{
  get_lock, request, is_held, enter, end_flight, store, finish, set_ticker,
}
use pecunator_accu_monetas.MarketCache.Budget.{Reached}

module _ {A : Type 0} where
  -- No lock is held by two fetches.
  abbrev pub IsExclusive : List (Flight A) → Type 0
  IsExclusive [] = Unit
  IsExclusive (f ∷ fs) = (is_held f.lock fs ≡ false) × IsExclusive fs

  pub is_held-end_flight :
      (l m : ℕ) (fs : List (Flight A)) → is_held l fs ≡ false → is_held l (end_flight m fs) ≡ false
  unfolding is_held end_flight
  is_held-end_flight l m [] h = refl
  is_held-end_flight l m (f ∷ fs) h = ground (arith, is_held-end_flight l m fs)

  end_flight-IsExclusive :
      (m : ℕ) (fs : List (Flight A)) → IsExclusive fs → IsExclusive (end_flight m fs)
  unfolding end_flight
  end_flight-IsExclusive m [] exclusive = tt
  end_flight-IsExclusive m (f ∷ fs) (free, exclusive) =
      let rest = end_flight-IsExclusive m fs exclusive in
      let free' = is_held-end_flight f.lock m fs free in ground arith

  pub evict_oldest_flights :
      (es : List (List ℕ × Entry A)) (total : ℕ) (c : Cache A)
      → (evict_oldest es total c).flights ≡ c.flights
  unfolding evict_oldest
  evict_oldest_flights [] total c = refl
  evict_oldest_flights ((k, e) ∷ es) total c =
      let rest =
        evict_oldest_flights es (total - e.size_bytes)
          (record c { entries = drop k c.entries; locks = drop k c.locks }) in
      ground arith

  pub finish_flights :
      (f : Flight A) (ttl weight : Option ℕ) (answer : Option (A × ℕ)) (now : ℕ) (c : Cache A)
      → (finish f ttl weight answer now c).0.flights ≡ end_flight f.lock c.flights
  unfolding finish store evict_if_needed evict_expired
  finish_flights f ttl weight (some (data_of, size)) now c = evict_oldest_flights _ _ _
  finish_flights f ttl weight none now c = ground arith

  pub request_flights :
      (key : List ℕ) (weight : Option ℕ) (now : ℕ) (c : Cache A)
      → (request key weight now c).0.flights ≡ c.flights
  unfolding request get_lock
  request_flights key weight now c = ground arith

  enter-IsExclusive :
      (key : List ℕ) (lock now : ℕ) (c : Cache A)
      → is_held lock c.flights ≡ false
      → IsExclusive c.flights
      → IsExclusive (enter key lock now c).0.flights
  unfolding enter
  enter-IsExclusive key lock now c free exclusive = ground arith

  -- Whatever callers do with a cache, no two fetches are ever in progress under one lock.
  pub Reached-IsExclusive :
      (max_memory : ℕ) (c : Cache A) → Reached A max_memory c → IsExclusive c.flights
  unfolding init invalidate invalidate_prefix clear set_ticker
  Reached-IsExclusive max_memory _ Reached.new = tt
  Reached-IsExclusive max_memory _ (Reached.requested {c} key weight now r) =
      rw (request_flights key weight now c) (Reached-IsExclusive max_memory c r)
  Reached-IsExclusive max_memory _ (Reached.entered {c} key lock now waits free r) =
      enter-IsExclusive key lock now c free (Reached-IsExclusive max_memory c r)
  Reached-IsExclusive max_memory _ (Reached.finished {c} fs gs f ttl weight answer now h r) =
      rw (finish_flights f ttl weight answer now c)
        (end_flight-IsExclusive f.lock c.flights (Reached-IsExclusive max_memory c r))
  Reached-IsExclusive max_memory _ (Reached.invalidated {c} key r) =
      Reached-IsExclusive max_memory c r
  Reached-IsExclusive max_memory _ (Reached.invalidated_prefix {c} prefix r) =
      Reached-IsExclusive max_memory c r
  Reached-IsExclusive max_memory _ (Reached.cleared {c} r) = Reached-IsExclusive max_memory c r
  Reached-IsExclusive max_memory _ (Reached.ticked {c} symbol ticker size ttl now r) =
      Reached-IsExclusive max_memory c r
