-- ===== src/MarketCache/Tests.antt =====
-- The cache of runtime/core/market_cache.py with two keys, one of which expires during its second fetch.
use pecunator_accu_monetas.Prelude.{
  ℕ, ◌≤◌, ◌≡◌, refl, true, false, none, some, List, [], ◌∷◌, ◌++◌, All,
}
use pecunator_accu_monetas.Prelude.Codes.{same_codes, find, put, upper}
use pecunator_accu_monetas.BudgetGuard.{codes}
use pecunator_accu_monetas.MarketCache.State.{
  Entry, Flight, Cache, init, is_expired, total_size, evict_if_needed, evict_expired, evict_oldest,
  drop_locks, sorted_by_age, insert_by_age,
}
use pecunator_accu_monetas.MarketCache.Flight.{
  tier_of, scoped_key, ticker_key, request, is_held, is_waiting, stop_waiting, enter, end_flight,
  fresh, get_lock, store, finish, tier_defaults, default_weight,
}
use pecunator_accu_monetas.MarketCache.Budget.{Reached, finish_within_memory}
use pecunator_accu_monetas.MarketCache.Dropped.{is_flying}

abbrev a : List ℕ
a = codes "a"

abbrev b : List ℕ
b = codes "b"

scoped_run :
    scoped_key (λ k. codes "0f") (codes "open_orders:X") (codes "key") ≡ codes "open_orders:X@0f"
unfolding scoped_key tier_of same_codes
scoped_run = refl

ticker_run : ticker_key (codes "btc/usdt") ≡ codes "symbol_ticker:BTCUSDT"
unfolding ticker_key upper
ticker_run = refl

abbrev first_a : Flight ℕ
first_a = record { key = a; lock = 0; stale = none }

abbrev second_b : Flight ℕ
second_b = record { key = b; lock = 1; stale = none }

-- `a` is fetched at 0 with a lifetime of 5.
abbrev asked : Cache ℕ
asked = (request a none 0 (init 100)).0

abbrev flying : Cache ℕ
flying = (enter a 0 0 asked).0

abbrev stored : Cache ℕ
stored = (finish first_a (some 5) none (some (7, 10)) 0 flying).0

-- At 10 a second fetch of `a` and one of `b` begin.
abbrev asked_again : Cache ℕ
asked_again = (request a none 10 stored).0

abbrev flying_again : Cache ℕ
flying_again = (enter a 0 10 asked_again).0

abbrev asked_other : Cache ℕ
asked_other = (request b none 10 flying_again).0

abbrev flying_other : Cache ℕ
flying_other = (enter b 1 10 asked_other).0

waits_first : is_waiting a 0 asked.waiting ≡ true
unfolding init request get_lock fresh find is_waiting same_codes
waits_first = refl

free_first : is_held 0 asked.flights ≡ false
unfolding init request get_lock fresh find is_held
free_first = refl

flies_first : flying.flights ≡ [] ++ first_a ∷ []
unfolding init request get_lock fresh find enter same_codes
flies_first = refl

stored_reached : Reached ℕ 100 stored
stored_reached =
    Reached.finished [] [] first_a (some 5) none (some (7, 10)) 0 flies_first
      (Reached.entered a 0 0 waits_first free_first (Reached.requested a none 0 Reached.new))

waits_again : is_waiting a 0 asked_again.waiting ≡ true
unfolding init request get_lock fresh find put enter finish store end_flight stop_waiting is_waiting
    evict_if_needed evict_expired evict_oldest drop_locks sorted_by_age insert_by_age is_expired
    same_codes default_weight tier_defaults tier_of
waits_again = refl

free_again : is_held 0 asked_again.flights ≡ false
unfolding init request get_lock fresh find put enter finish store end_flight stop_waiting is_held
    evict_if_needed evict_expired evict_oldest drop_locks sorted_by_age insert_by_age is_expired
    same_codes default_weight tier_defaults tier_of
free_again = refl

waits_other : is_waiting b 1 asked_other.waiting ≡ true
unfolding init request get_lock fresh find put enter finish store end_flight stop_waiting is_waiting
    evict_if_needed evict_expired evict_oldest drop_locks sorted_by_age insert_by_age is_expired
    same_codes default_weight tier_defaults tier_of
waits_other = refl

free_other : is_held 1 asked_other.flights ≡ false
unfolding init request get_lock fresh find put enter finish store end_flight stop_waiting is_held
    evict_if_needed evict_expired evict_oldest drop_locks sorted_by_age insert_by_age is_expired
    same_codes default_weight tier_defaults tier_of
free_other = refl

other_reached : Reached ℕ 100 flying_other
other_reached = Reached.entered b 1 10 waits_other free_other (
    Reached.requested b none 10
      (Reached.entered a 0 10 waits_again free_again (Reached.requested a none 10 stored_reached)))

finish_within_memory_example :
    let c' = (finish second_b none none (some (9, 95)) 11 flying_other).0 in
    (total_size c'.entries ≤ 100) × All (λ x. is_expired 11 x.1 ≡ false) c'.entries
finish_within_memory_example =
    finish_within_memory 100 flying_other second_b none none 9 95 11 other_reached

abbrev old_entry : Entry ℕ
old_entry = record { data_of = 7; fetched_at = 0; ttl = 5; api_weight = 1; size_bytes = 10 }

flies_other : is_flying a 0 flying_other.flights ≡ true
unfolding init request get_lock fresh find put enter finish store end_flight stop_waiting is_flying
    evict_if_needed evict_expired evict_oldest drop_locks sorted_by_age insert_by_age is_expired
    same_codes default_weight tier_defaults tier_of
flies_other = refl

has_old_entry : find a flying_other.entries ≡ some old_entry
unfolding init request get_lock fresh find put enter finish store end_flight stop_waiting
    evict_if_needed evict_expired evict_oldest drop_locks sorted_by_age insert_by_age is_expired
    same_codes default_weight tier_defaults tier_of
has_old_entry = refl

other_key : same_codes second_b.key a ≡ false
unfolding same_codes
other_key = refl

old_expired : is_expired 11 old_entry ≡ true
unfolding is_expired
old_expired = refl
