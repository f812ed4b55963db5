-- ===== src/MarketCache/Fresh.antt =====
-- The numbers of the locks of runtime/core/market_cache.py: those in use are below the next one.
use pecunator_accu_monetas.Prelude.{
  ℕ, ◌+◌, ◌-◌, ◌≤◌, ◌<◌, ◌≡◌, ◌⊎◌, refl, true, false, Option, none, some, List, [], ◌∷◌, arith, All,
  Option-cases, inl, inr,
}
use pecunator_accu_monetas.Prelude.Codes.{find, put, drop}
use pecunator_accu_monetas.MarketCache.State.{
  Entry, Flight, Cache, init, invalidate, invalidate_prefix, clear, evict_if_needed, evict_oldest,
  evict_expired, drop_locks,
}
use pecunator_accu_monetas.MarketCache.Flight.{
  fresh, get_lock, request, is_held, is_waiting, stop_waiting, enter, end_flight, store, finish,
  set_ticker,
}
use pecunator_accu_monetas.MarketCache.Budget.{Reached}

abbrev pub AllBelow : ℕ → List (List ℕ × ℕ) → Type 0
AllBelow n = All (λ x. x.1 < n)

below_more : (n m : ℕ) (xs : List (List ℕ × ℕ)) → n ≤ m → AllBelow n xs → AllBelow m xs
below_more n m [] le all = tt
below_more n m (x ∷ xs) le (here, all) = (omega (arith, le, here), below_more n m xs le all)

AllBelow-put :
    (n : ℕ) (k : List ℕ) (l : ℕ) (d : List (List ℕ × ℕ))
    → l < n
    → AllBelow n d
    → AllBelow n (put k l d)
unfolding put
AllBelow-put n k l [] lt all = (lt, tt)
AllBelow-put n k l ((j, m) ∷ d) lt (here, all) =
    let rest = AllBelow-put n k l d lt all in ground arith

AllBelow-drop : (n : ℕ) (k : List ℕ) (d : List (List ℕ × ℕ)) → AllBelow n d → AllBelow n (drop k d)
unfolding drop
AllBelow-drop n k [] all = tt
AllBelow-drop n k ((j, m) ∷ d) (here, all) = let rest = AllBelow-drop n k d all in ground arith

below_of_find :
    (n : ℕ) (k : List ℕ) (l : ℕ) (d : List (List ℕ × ℕ)) → find k d ≡ some l → AllBelow n d → l < n
unfolding find
below_of_find n k l [] h all = cc
below_of_find n k l ((j, m) ∷ d) h (here, all) = let rest = below_of_find n k l d in ground arith

AllBelow-stop_waiting :
    (n : ℕ) (k : List ℕ) (l : ℕ) (ws : List (List ℕ × ℕ))
    → AllBelow n ws
    → AllBelow n (stop_waiting k l ws)
unfolding stop_waiting
AllBelow-stop_waiting n k l [] all = tt
AllBelow-stop_waiting n k l ((j, m) ∷ ws) (here, all) =
    let rest = AllBelow-stop_waiting n k l ws all in ground arith

below_of_waiting :
    (n : ℕ) (k : List ℕ) (l : ℕ) (ws : List (List ℕ × ℕ))
    → is_waiting k l ws ≡ true
    → AllBelow n ws
    → l < n
unfolding is_waiting
below_of_waiting n k l [] h all = cc
below_of_waiting n k l ((j, m) ∷ ws) h (here, all) =
    let rest = below_of_waiting n k l ws in ground arith

module _ {A : Type 0} where
  abbrev pub AllUnder : ℕ → List (Flight A) → Type 0
  AllUnder n = All (λ f. f.lock < n)

  under_more : (n m : ℕ) (fs : List (Flight A)) → n ≤ m → AllUnder n fs → AllUnder m fs
  under_more n m [] le all = tt
  under_more n m (x ∷ xs) le (here, all) = (omega (arith, le, here), under_more n m xs le all)

  AllUnder-end_flight :
      (n l : ℕ) (fs : List (Flight A)) → AllUnder n fs → AllUnder n (end_flight l fs)
  unfolding end_flight
  AllUnder-end_flight n l [] all = tt
  AllUnder-end_flight n l (f ∷ fs) (here, all) =
      let rest = AllUnder-end_flight n l fs all in ground arith

  pub free_of_under : (n : ℕ) (fs : List (Flight A)) → AllUnder n fs → is_held n fs ≡ false
  unfolding is_held
  free_of_under n [] all = refl
  free_of_under n (f ∷ fs) (here, all) = let rest = free_of_under n fs all in ground arith

  AllBelow-drop_locks :
      (n : ℕ) (es : List (List ℕ × Entry A)) (d : List (List ℕ × ℕ))
      → AllBelow n d
      → AllBelow n (drop_locks es d)
  unfolding drop_locks
  AllBelow-drop_locks n [] d all = all
  AllBelow-drop_locks n ((k, e) ∷ es) d all =
      AllBelow-drop_locks n es (drop k d) (AllBelow-drop n k d all)

  abbrev pub HasOldLocks : Cache A → Type 0
  HasOldLocks c =
      AllBelow c.next_lock c.locks × AllBelow c.next_lock c.waiting × AllUnder c.next_lock c.flights

  HasOldLocks-from :
      (c : Cache A) (n : ℕ) (locks waiting : List (List ℕ × ℕ)) (flights : List (Flight A))
      → c.next_lock ≡ n
      → c.locks ≡ locks
      → c.waiting ≡ waiting
      → c.flights ≡ flights
      → AllBelow n locks
      → AllBelow n waiting
      → AllUnder n flights
      → HasOldLocks c
  HasOldLocks-from c n locks waiting flights a b d e below below' under =
      (rw (a, b) below, rw (a, d) below', rw (a, e) under)

  -- A request leaves the locks, takes the one of its key, or makes a new one.
  request_cases :
      (key : List ℕ) (weight : Option ℕ) (now : ℕ) (c : Cache A)
      → let c' = (request key weight now c).0 in
        (c'.flights ≡ c.flights)
        × (((c'.next_lock ≡ c.next_lock) × (c'.locks ≡ c.locks) × (c'.waiting ≡ c.waiting))
            ⊎ ((l : ℕ) × (c'.next_lock ≡ c.next_lock)
                × (c'.locks ≡ c.locks)
                × (find key c.locks ≡ some l)
                × (c'.waiting ≡ (key, l) ∷ c.waiting))
            ⊎ ((c'.next_lock ≡ c.next_lock + 1)
                × (c'.locks ≡ put key c.next_lock c.locks)
                × (c'.waiting ≡ (key, c.next_lock) ∷ c.waiting)))
  unfolding request get_lock
  request_cases key weight now c = elim (Option-cases (fresh key now c)) [
    | inr (e, h) ↦ rw (request, h) (refl, inl (refl, refl, refl))
    | inl h ↦ elim (Option-cases (find key c.locks)) [
      | inl h' ↦ rw (request, h, get_lock, h') (refl, inr (inr (refl, refl, refl)))
      | inr (l, h') ↦ rw (request, h, get_lock, h') (refl, inr (inl (l, refl, refl, refl, refl)))
    ]
  ]

  request_old :
      (key : List ℕ) (weight : Option ℕ) (now : ℕ) (c : Cache A)
      → HasOldLocks c
      → HasOldLocks (request key weight now c).0
  request_old key weight now c (locks, waiting, flights) =
      let n = c.next_lock in
      let c' = (request key weight now c).0 in
      let (kept, cases) = request_cases key weight now c in
      elim cases [
        | inl (a, b, d) ↦ HasOldLocks-from c' n _ _ _ a b d kept locks waiting flights
        | inr (inl (l, a, b, found, d)) ↦
            HasOldLocks-from c' n _ _ _ a b d kept locks
              (below_of_find n key l c.locks found locks, waiting) flights
        | inr (inr (a, b, d)) ↦
            HasOldLocks-from c' (n + 1) _ _ _ a b d kept
              (AllBelow-put (n + 1) key n c.locks (omega arith)
                (below_more n (n + 1) c.locks (omega arith) locks))
              (omega arith, below_more n (n + 1) c.waiting (omega arith) waiting)
              (under_more n (n + 1) c.flights (omega arith) flights)
      ]

  enter_cases :
      (key : List ℕ) (lock now : ℕ) (c : Cache A)
      → let c' = (enter key lock now c).0 in
        (c'.next_lock ≡ c.next_lock)
        × (c'.locks ≡ c.locks)
        × (c'.waiting ≡ stop_waiting key lock c.waiting)
        × ((c'.flights ≡ c.flights)
            ⊎ (c'.flights
                ≡ record { key = key; lock = lock; stale = find key c.entries } ∷ c.flights))
  unfolding enter
  enter_cases key lock now c = ground arith

  enter_old :
      (key : List ℕ) (lock now : ℕ) (c : Cache A)
      → is_waiting key lock c.waiting ≡ true
      → HasOldLocks c
      → HasOldLocks (enter key lock now c).0
  enter_old key lock now c waits (locks, waiting, flights) =
      let n = c.next_lock in
      let c' = (enter key lock now c).0 in
      let waiting' = AllBelow-stop_waiting n key lock c.waiting waiting in
      let (a, b, d, cases) = enter_cases key lock now c in
      elim cases [
        | inl e ↦ HasOldLocks-from c' n _ _ _ a b d e locks waiting' flights
        | inr e ↦
            HasOldLocks-from c' n _ _ _ a b d e locks waiting'
              (below_of_waiting n key lock c.waiting waits waiting, flights)
      ]

  evict_oldest_old :
      (es : List (List ℕ × Entry A)) (total : ℕ) (c : Cache A)
      → HasOldLocks c
      → HasOldLocks (evict_oldest es total c)
  unfolding evict_oldest
  evict_oldest_old [] total c old = old
  evict_oldest_old ((k, e) ∷ es) total c (locks, waiting, flights) =
      let rest =
        evict_oldest_old es (total - e.size_bytes)
          (record c { entries = drop k c.entries; locks = drop k c.locks })
          (AllBelow-drop c.next_lock k c.locks locks, waiting, flights) in
      ground arith

  finish_old :
      (f : Flight A) (ttl weight : Option ℕ) (answer : Option (A × ℕ)) (now : ℕ) (c : Cache A)
      → HasOldLocks c
      → HasOldLocks (finish f ttl weight answer now c).0
  unfolding finish store evict_if_needed evict_expired
  finish_old f ttl weight (some (data_of, size)) now c (locks, waiting, flights) =
      evict_oldest_old _ _ _ (
        AllBelow-drop_locks c.next_lock _ c.locks locks,
        waiting,
        AllUnder-end_flight c.next_lock f.lock c.flights flights,
      )
  finish_old f ttl weight none now c (locks, waiting, flights) =
      let flights' = AllUnder-end_flight c.next_lock f.lock c.flights flights in ground arith

  -- In every cache that is reached, a lock that is kept, waited for or held is older than the next.
  pub Reached-HasOldLocks : (max_memory : ℕ) (c : Cache A) → Reached A max_memory c → HasOldLocks c
  unfolding init invalidate invalidate_prefix clear set_ticker
  Reached-HasOldLocks max_memory _ Reached.new = (tt, tt, tt)
  Reached-HasOldLocks max_memory _ (Reached.requested {c} key weight now r) =
      request_old key weight now c (Reached-HasOldLocks max_memory c r)
  Reached-HasOldLocks max_memory _ (Reached.entered {c} key lock now waits free r) =
      enter_old key lock now c waits (Reached-HasOldLocks max_memory c r)
  Reached-HasOldLocks max_memory _ (Reached.finished {c} fs gs f ttl weight answer now h r) =
      finish_old f ttl weight answer now c (Reached-HasOldLocks max_memory c r)
  Reached-HasOldLocks max_memory _ (Reached.invalidated {c} key r) =
      Reached-HasOldLocks max_memory c r
  Reached-HasOldLocks max_memory _ (Reached.invalidated_prefix {c} prefix r) =
      Reached-HasOldLocks max_memory c r
  Reached-HasOldLocks max_memory _ (Reached.cleared {c} r) = Reached-HasOldLocks max_memory c r
  Reached-HasOldLocks max_memory _ (Reached.ticked {c} symbol ticker size ttl now r) =
      Reached-HasOldLocks max_memory c r
