-- ===== src/MarketCache/Dropped.antt =====
-- The lock that the eviction of runtime/core/market_cache.py takes away while a fetch holds it.
use pecunator_accu_monetas.Prelude.{
  ℕ, ◌-◌, ◌≡◌, ◌≢◌, refl, ap, sym, ◌∙◌, Bool, true, false, not, ◌&&◌, ◌||◌, Option, none, some,
  List, [], ◌∷◌, arith, keep_if, ◌==◌,
}
use pecunator_accu_monetas.Prelude.Codes.{
  same_codes, same_codes_eq, same_codes_refl, find, drop, find-drop_self, find-put_other,
}
use pecunator_accu_monetas.MarketCache.State.{
  Entry, Flight, Cache, is_expired, evict_if_needed, evict_oldest, evict_expired, drop_locks,
}
use pecunator_accu_monetas.MarketCache.Flight.{
  Result, fresh, get_lock, request, is_held, is_waiting, enter, end_flight, store, finish,
}
use pecunator_accu_monetas.MarketCache.Keys.{IsKeyed, find-drop-none, put-IsKeyed}
use pecunator_accu_monetas.MarketCache.Budget.{Reached, Reached-HasKeys}
use pecunator_accu_monetas.MarketCache.Locks.{is_held-end_flight, finish_flights, request_flights}
use pecunator_accu_monetas.MarketCache.Fresh.{Reached-HasOldLocks, free_of_under}

module _ {A : Type 0} where
  find-drop_locks-none :
      (k : List ℕ) (es : List (List ℕ × Entry A)) (locks : List (List ℕ × ℕ))
      → find k locks ≡ none
      → find k (drop_locks es locks) ≡ none
  unfolding drop_locks
  find-drop_locks-none k [] locks h = h
  find-drop_locks-none k ((j, e) ∷ es) locks h =
      find-drop_locks-none k es (drop j locks) (find-drop-none k j locks h)

  -- The lock of an expired entry's key is dropped.
  find-drop_locks_expired :
      (k : List ℕ) (now : ℕ) (e : Entry A) (es : List (List ℕ × Entry A))
      (locks : List (List ℕ × ℕ))
      → find k es ≡ some e
      → is_expired now e ≡ true
      → find k (drop_locks (keep_if (λ x. is_expired now x.1) es) locks) ≡ none
  unfolding find drop_locks
  find-drop_locks_expired k now e [] locks h expired = cc
  find-drop_locks_expired k now e ((j, x) ∷ es) locks h expired =
      let rest = find-drop_locks_expired k now e es locks in
      let rest' = find-drop_locks_expired k now e es (drop j locks) in
      let same = same_codes_eq j k in
      let gone =
        find-drop_locks-none k (keep_if (λ y. is_expired now y.1) es) (drop k locks)
          (find-drop_self k locks) in
      ground arith

  find-live_none :
      (k : List ℕ) (now : ℕ) (es : List (List ℕ × Entry A))
      → find k es ≡ none
      → find k (keep_if (λ x. not (is_expired now x.1)) es) ≡ none
  unfolding find
  find-live_none k now [] h = refl
  find-live_none k now ((j, x) ∷ es) h = ground (arith, find-live_none k now es)

  -- The expired entry of a key is gone.
  find-live_expired :
      (k : List ℕ) (now : ℕ) (e : Entry A) (es : List (List ℕ × Entry A))
      → IsKeyed es
      → find k es ≡ some e
      → is_expired now e ≡ true
      → find k (keep_if (λ x. not (is_expired now x.1)) es) ≡ none
  unfolding find
  find-live_expired k now e [] keyed h expired = cc
  find-live_expired k now e ((j, x) ∷ es) (apart, keyed) h expired =
      let rest = find-live_expired k now e es keyed in
      let same = same_codes_eq j k in
      let none_left : same_codes j k ≡ true
          → find k (keep_if (λ y. not (is_expired now y.1)) es) ≡ none =
        λ s. find-live_none k now es (ap (λ i. find i es) (sym (same_codes_eq j k s)) ∙ apart) in
      ground arith

  evict_oldest-none :
      (k : List ℕ) (es : List (List ℕ × Entry A)) (total : ℕ) (c : Cache A)
      → find k c.entries ≡ none
      → find k c.locks ≡ none
      → (find k (evict_oldest es total c).entries ≡ none)
        × (find k (evict_oldest es total c).locks ≡ none)
        × ((evict_oldest es total c).next_lock ≡ c.next_lock)
  unfolding evict_oldest
  evict_oldest-none k [] total c h h' = (h, h', refl)
  evict_oldest-none k ((j, e) ∷ es) total c h h' =
      let rest =
        evict_oldest-none k es (total - e.size_bytes)
          (record c { entries = drop j c.entries; locks = drop j c.locks })
          (find-drop-none k j c.entries h) (find-drop-none k j c.locks h') in
      ground arith

  -- An eviction takes an expired entry and the lock of its key.
  evict_if_needed_drops :
      (k : List ℕ) (e : Entry A) (now : ℕ) (c : Cache A)
      → IsKeyed c.entries
      → find k c.entries ≡ some e
      → is_expired now e ≡ true
      → let c' = evict_if_needed now c in
        (find k c'.entries ≡ none) × (find k c'.locks ≡ none) × (c'.next_lock ≡ c.next_lock)
  unfolding evict_if_needed evict_expired
  evict_if_needed_drops k e now c keyed h expired =
      evict_oldest-none k _ _ (evict_expired now c)
        (find-live_expired k now e c.entries keyed h expired)
        (find-drop_locks_expired k now e c.entries c.locks h expired)

  finish_drops :
      (k : List ℕ) (e : Entry A) (g : Flight A) (ttl weight : Option ℕ) (data_of : A) (size now : ℕ)
      (c : Cache A)
      → IsKeyed c.entries
      → same_codes g.key k ≡ false
      → find k c.entries ≡ some e
      → is_expired now e ≡ true
      → let c' = (finish g ttl weight (some (data_of, size)) now c).0 in
        (find k c'.entries ≡ none) × (find k c'.locks ≡ none) × (c'.next_lock ≡ c.next_lock)
  unfolding finish store
  finish_drops k e g ttl weight data_of size now c keyed apart h expired =
      evict_if_needed_drops k e now _ (put-IsKeyed g.key _ c.entries keyed)
        (find-put_other g.key k _ c.entries apart ∙ h) expired

  -- A request of a key with neither entry nor lock, and its entrance.
  request_anew :
      (k : List ℕ) (weight : Option ℕ) (now : ℕ) (c : Cache A)
      → find k c.entries ≡ none
      → find k c.locks ≡ none
      → let c' = (request k weight now c).0 in
        ((request k weight now c).1 ≡ Result.waits c.next_lock)
        × (c'.entries ≡ c.entries)
        × (is_waiting k c.next_lock c'.waiting ≡ true)
  unfolding request get_lock fresh is_waiting
  request_anew k weight now c h h' = ground (arith, same_codes_refl k)

  enter_anew :
      (k : List ℕ) (lock now : ℕ) (c : Cache A)
      → find k c.entries ≡ none
      → (enter k lock now c).0.flights ≡ record { key = k; lock = lock; stale = none } ∷ c.flights
  unfolding enter fresh
  enter_anew k lock now c h = ground arith

  -- A fetch of a key is in progress under a lock.
  unfoldable pub is_flying : List ℕ → ℕ → List (Flight A) → Bool
  is_flying k lock [] = false
  is_flying k lock (f ∷ fs) = same_codes f.key k && f.lock == lock || is_flying k lock fs

  is_flying-end_flight :
      (k : List ℕ) (l m : ℕ) (fs : List (Flight A))
      → l ≢ m
      → is_flying k l fs ≡ true
      → is_flying k l (end_flight m fs) ≡ true
  unfolding is_flying end_flight
  is_flying-end_flight k l m [] apart h = cc
  is_flying-end_flight k l m (f ∷ fs) apart h = ground (arith, is_flying-end_flight k l m fs)

  -- In a cache that is reached a fetch of a key is in progress under some lock, and the key's entry is
  -- expired when the fetch of another key gives its data. Then the next request of the key gets a new
  -- lock that nobody holds, and begins a second fetch of the same key while the first one still is in
  -- progress.
  pub second_flight :
      (max_memory : ℕ) (c : Cache A) (k : List ℕ) (lock : ℕ) (e : Entry A) (g : Flight A)
      (ttl weight weight' : Option ℕ) (data_of : A) (size now now' now'' : ℕ)
      → Reached A max_memory c
      → is_flying k lock c.flights ≡ true
      → lock ≢ g.lock
      → same_codes g.key k ≡ false
      → find k c.entries ≡ some e
      → is_expired now e ≡ true
      → let c1 = (finish g ttl weight (some (data_of, size)) now c).0 in
        let c2 = (request k weight' now' c1).0 in
        ((request k weight' now' c1).1 ≡ Result.waits c.next_lock)
        × (is_waiting k c.next_lock c2.waiting ≡ true)
        × (is_held c.next_lock c2.flights ≡ false)
        × ((enter k c.next_lock now'' c2).0.flights
            ≡ record { key = k; lock = c.next_lock; stale = none } ∷ end_flight g.lock c.flights)
        × (is_flying k lock (end_flight g.lock c.flights) ≡ true)
  second_flight max_memory c k lock e g ttl weight weight' data_of size now now' now'' r flies apart
        other h expired =
      let (keyed, memory) = Reached-HasKeys max_memory c r in
      let (locks, waiting, under) = Reached-HasOldLocks max_memory c r in
      let c1 = (finish g ttl weight (some (data_of, size)) now c).0 in
      let c2 = (request k weight' now' c1).0 in
      let (gone, gone', next) =
        finish_drops k e g ttl weight data_of size now c keyed other h expired in
      let (answer, kept, waits) = request_anew k weight' now' c1 gone gone' in
      let flights : c2.flights ≡ end_flight g.lock c.flights =
        request_flights k weight' now' c1
        ∙ finish_flights g ttl weight (some (data_of, size)) now c in
      let free =
        is_held-end_flight c.next_lock g.lock c.flights
          (free_of_under c.next_lock c.flights under) in
      (
        answer ∙ ap Result.waits next,
        ap (λ n. is_waiting k n c2.waiting) (sym next) ∙ waits,
        ap (is_held c.next_lock) flights ∙ free,
        enter_anew k c.next_lock now'' c2 (ap (find k) kept ∙ gone)
            ∙ ap (λ fs. record { key = k; lock = c.next_lock; stale = none } ∷ fs) flights,
        is_flying-end_flight k lock g.lock c.flights apart flies,
      )
